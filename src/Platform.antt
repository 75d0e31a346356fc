-- ===== src/Platform.antt =====
-- What the evidence packs need of libraries and files outside the program: hashlib, csv, zipfile, the
-- clock's formats, urllib.parse, openssl and the files under certs/tsa/. All are parameters.
use truthpage.Prelude.{Bool, List, Option, String, Time, ℕ}

-- What `zipfile.infolist` and `zipfile.read` tell of one member of an archive.
pub record Member : Type 0 where
  pub filename : String
  pub file_size : ℕ
  pub content : String

-- Bytes are texts of the characters 0 to 255. A path
-- under certs/tsa/ is named by its last component.
pub record Platform : Type 0 where
  -- value.strftime(format)
  pub strftime : String → Time → String
  -- hashlib.sha256(data).hexdigest()
  pub sha256 : String → String
  -- text.encode("utf-8") and data.decode("utf-8", errors="replace")
  pub encode : String → String
  pub decode : String → String
  -- csv.writer(…, lineterminator="\n").writerow(cells)
  pub csv_row : List String → String
  -- f"{confidence:.2f}"
  pub format_2f : ℕ → String
  -- urlparse(url).hostname
  pub hostname : String → Option String
  -- The files of certs/tsa/ that end in .pem, in the order of their names.
  pub pem_files : List String
  -- (_CERTS_DIR / filename).is_file() with its bytes
  pub read_chain : String → Option String
  -- `openssl ts -verify` of a token over a digest, against a chain file
  pub openssl_verify : String → String → String → Bool
  -- The validity of the last certificate of a chain file.
  pub cert_window : String → Option String
  -- The bytes of an archive with these members, and the members of an archive; None for
  -- `BadZipFile`.
  pub zip_bytes : List (String × String) → String
  pub zip_members : String → Option (List Member)
