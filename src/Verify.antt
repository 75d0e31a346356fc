-- ===== src/Verify.antt =====
-- app/services/verify.py: the public check of an uploaded pack, or of a file with its token. The
-- archive format, the digest and openssl are parameters; a call of openssl that runs into its time
-- limit is left out.
pub mod Guard
pub mod Safe
pub mod Named
pub mod Chains
pub mod Packs
pub mod Built
mod Tests
use Prim.Native.Char.{code}
use truthpage.Prelude.{
  Bool, List, Option, String, [], false, get_or, if◌then◌else◌, is_some, leb, length, lstrip, ltb,
  none, some, str_eq, suc, true, zero, ℕ, ◌&&◌, ◌+◌, ◌==◌, ◌||◌, ◌∷◌,
}
use truthpage.Notice.{size}
use truthpage.Platform.{Member, Platform}
use truthpage.TsaChains.{all_bundled_chain_paths, chain_path_for_authority}
use truthpage.Evidence.{after_prefix}
use truthpage.Evidence.Parse.{Parsed, detect_manifest_version, get, parse_manifest_v2}

abbrev pub max_upload_bytes : ℕ
max_upload_bytes = 5242880

abbrev pub max_zip_uncompressed_bytes : ℕ
max_zip_uncompressed_bytes = 52428800

abbrev pub max_zip_entries : ℕ
max_zip_entries = 100

abbrev pub max_single_entry_bytes : ℕ
max_single_entry_bytes = 20971520

-- The messages, by what they say.
pub data Message : Type 0 where
  file_too_large not_a_zip no_manifest no_v1_hash no_v2_hash not_in_archive hash_mismatch : Message
  too_many_files single_file_too_large archive_too_large : Message
  no_timestamp token_missing no_trusted_chain token_refused pass : Message

pub record VerifyResult : Type 0 where
  pub passed : Bool
  pub message : Message
  pub manifest_version : Option ℕ
  pub content_hash : Option String
  pub timestamp_status : Option String
  pub tsa_authority_url : Option String
  pub tsa_time_utc : Option String
  pub tsa_cert_window : Option String

-- VerifyResult(ok=False, message=…, manifest_version=…)
abbrev pub refused : Message → Option ℕ → VerifyResult
refused message version = record {
  passed = false;
  message = message;
  manifest_version = version;
  content_hash = none;
  timestamp_status = none;
  tsa_authority_url = none;
  tsa_time_utc = none;
  tsa_cert_window = none;
}

-- The loop of `_zip_bomb_guard`, with the total so far.
unfoldable pub guard_loop : ℕ → List Member → Option Message
guard_loop total [] = none
guard_loop total (info ∷ infos) =
    let total' = total + info.file_size in
    let later = guard_loop total' infos in
    if ltb max_single_entry_bytes info.file_size
    then some single_file_too_large
    else if ltb max_zip_uncompressed_bytes total'
    then some archive_too_large
    else later

unfoldable pub zip_bomb_guard : List Member → Option Message
unfolding guard_loop
zip_bomb_guard infos =
    if ltb max_zip_entries (length infos) then some too_many_files else guard_loop 0 infos

-- `zf.read(name)`, None for a name that `zf.namelist()` has not; the last member of a name counts.
unfoldable pub read_member : String → List Member → Option String
read_member name [] = none
read_member name (member ∷ members) =
    let later = read_member name members in
    if is_some later
    then later
    else if str_eq member.filename name
    then some member.content
    else none

-- Is it one of 0-9 and a-f?
abbrev is_hex : ℕ → Bool
is_hex c = (leb 48 c && leb c 57) || (leb 97 c && leb c 102)

-- `[0-9a-f]{n}` at the front
abbrev hex_prefix : ℕ → String → Option String
hex_prefix zero s = some String.[]
hex_prefix (suc n) String.[] = none
hex_prefix (suc n) (String.◌∷◌ c s) = elim (hex_prefix n s) [
  | none ↦ none
  | some digits ↦ if is_hex (code c) then some (String.◌∷◌ c digits) else none
]

anchor_here : Option String → Option String
anchor_here none = none
anchor_here (some behind) = hex_prefix 64 (lstrip behind)

-- `_V1_ANCHOR_HASH_RE.search`
unfoldable pub anchor_hash : String → Option String
unfolding anchor_here
anchor_hash String.[] = none
anchor_hash (String.◌∷◌ c s) =
    let later = anchor_hash s in
    let here = anchor_here (after_prefix "Content Hash (SHA-256):" (String.◌∷◌ c s)) in
    if is_some here then here else later

abbrev pub says_timestamped : Option String → Bool
says_timestamped none = false
says_timestamped (some status) = str_eq status "timestamped"

-- The file or its digest is missing, None being as an empty text.
abbrev pub names_no_hash : String → String → Bool
names_no_hash after_file expected =
    str_eq after_file "" || str_eq expected "" || str_eq expected "not_available"

module _ (os : Platform) where
  -- `_run_openssl_verify`: the window of the chain that the token verifies against.
  unfoldable pub run_openssl_verify : String → String → List String → Bool × Option String
  run_openssl_verify token digest [] = (false, none)
  run_openssl_verify token digest (chain ∷ chains) =
      let later = run_openssl_verify token digest chains in
      if os.openssl_verify token digest chain then (true, os.cert_window chain) else later

  -- `_hash_and_check`: None if the file has the digest, or the message.
  unfoldable pub hash_and_check : List Member → String → String → Option Message
  hash_and_check zf filename expected = elim (read_member filename zf) [
    | none ↦ some not_in_archive
    | some content ↦ if str_eq (os.sha256 content) expected then none else some hash_mismatch
  ]

  unfoldable pub after_v1 : String → Option Message → VerifyResult
  after_v1 expected (some message) = refused message (some 1)
  after_v1 expected none = record (refused no_timestamp (some 1)) {
    passed = true;
    content_hash = some expected;
    timestamp_status = some "not_available_pre_tsa";
  }

  -- `_verify_v1`
  unfoldable pub verify_v1 : List Member → String → VerifyResult
  unfolding after_v1
  verify_v1 zf manifest = elim (anchor_hash manifest) [
    | none ↦ refused no_v1_hash (some 1)
    | some expected ↦ after_v1 expected (hash_and_check zf "after.html" expected)
  ]

  -- The token was read and the chain of the named authority is there.
  unfoldable pub check_token : Parsed → String → String → Option String → VerifyResult
  check_token parsed expected token none = record (refused no_trusted_chain (some 2)) {
    timestamp_status = get "timestamp_status" parsed.fields;
  }
  check_token parsed expected token (some chain) =
      let status = get "timestamp_status" parsed.fields in
      let (verified, window) = run_openssl_verify token expected (chain ∷ []) in
      if verified
      then record (refused pass (some 2)) {
        passed = true;
        content_hash = some expected;
        timestamp_status = status;
        tsa_authority_url = get "tsa_authority_url" parsed.fields;
        tsa_time_utc = get "tsa_time_utc" parsed.fields;
        tsa_cert_window = window;
      }
      else record (refused token_refused (some 2)) {
        content_hash = some expected;
        timestamp_status = status;
      }

  -- `token_file` of the manifest, if it is named and in the archive.
  unfoldable pub token_of : List Member → Option String → Option String
  token_of zf none = none
  token_of zf (some name) =
      let found = read_member name zf in if str_eq name "" then none else found

  -- A pack whose manifest says "timestamped".
  unfoldable pub check_timestamp : List Member → Parsed → String → VerifyResult
  unfolding check_token token_of
  check_timestamp zf parsed expected = elim (token_of zf (get "tsa_token_file" parsed.fields)) [
    | none ↦ record (refused token_missing (some 2)) {
      timestamp_status = get "timestamp_status" parsed.fields;
    }
    | some token ↦
        check_token parsed expected token
          (chain_path_for_authority os (get "tsa_authority_url" parsed.fields))
  ]

  unfoldable pub after_hash : List Member → Parsed → String → Option Message → VerifyResult
  unfolding check_timestamp
  after_hash zf parsed expected (some message) = record (refused message (some 2)) {
    timestamp_status = get "timestamp_status" parsed.fields;
  }
  after_hash zf parsed expected none =
      let status = get "timestamp_status" parsed.fields in
      if says_timestamped status
      then check_timestamp zf parsed expected
      else record (refused no_timestamp (some 2)) {
        passed = true;
        content_hash = some expected;
        timestamp_status = status;
      }

  unfoldable pub verify_named : List Member → Parsed → String → String → VerifyResult
  unfolding after_hash
  verify_named zf parsed after_file expected =
      if names_no_hash after_file expected
      then refused no_v2_hash (some 2)
      else after_hash zf parsed expected (hash_and_check zf after_file expected)

  -- `_verify_v2`, of the fields of the manifest.
  unfoldable pub verify_fields : List Member → Parsed → VerifyResult
  unfolding verify_named
  verify_fields zf parsed =
      verify_named zf parsed (get_or (get "after_html_file" parsed.fields) "")
        (get_or (get "after_sha256" parsed.fields) "")

  unfoldable pub verify_v2 : List Member → String → VerifyResult
  unfolding verify_fields
  verify_v2 zf manifest = verify_fields zf (parse_manifest_v2 manifest)

  -- The archive was opened and may be read.
  unfoldable pub verify_members : List Member → VerifyResult
  verify_members zf = elim (read_member "manifest.txt" zf) [
    | none ↦ refused no_manifest none
    | some manifest ↦
        let text = os.decode manifest in
        if detect_manifest_version text == 1 then verify_v1 zf text else verify_v2 zf text
  ]

  unfoldable pub guarded : List Member → Option Message → VerifyResult
  unfolding verify_members
  guarded zf (some message) = refused message none
  guarded zf none = verify_members zf

  unfoldable pub verify_opened : Option (List Member) → VerifyResult
  unfolding guarded
  verify_opened none = refused not_a_zip none
  verify_opened (some zf) = guarded zf (zip_bomb_guard zf)

  unfoldable pub verify_pack : String → VerifyResult
  unfolding verify_opened
  verify_pack upload =
      if ltb max_upload_bytes (size upload)
      then refused file_too_large none
      else verify_opened (os.zip_members upload)

  unfoldable pub verify_content_and_token : String → String → VerifyResult
  verify_content_and_token content token =
      let digest = os.sha256 content in
      let (verified, window) = run_openssl_verify token digest (all_bundled_chain_paths os) in
      if ltb max_upload_bytes (size content) || ltb max_upload_bytes (size token)
      then refused file_too_large none
      else if verified
      then record (refused pass none) {
        passed = true;
        content_hash = some digest;
        timestamp_status = some "timestamped";
        tsa_cert_window = window;
      }
      else record (refused token_refused none) { content_hash = some digest }
