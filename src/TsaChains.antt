-- ===== src/TsaChains.antt =====
-- app/core/tsa_chains.py: the chain of certificates that belongs to a timestamp authority.
use truthpage.Prelude.{
  Bool-cases, List, Option, String, arith, if◌then◌else◌, inl, inr, is_some, none, some, str_eq,
  true, ◌<>◌, ◌≡◌,
}
use truthpage.Platform.{Platform}

module _ (os : Platform) where
  unfoldable pub chain_file_of_host : Option String → Option String
  chain_file_of_host none = none
  chain_file_of_host (some host) =
      let filename = host <> ".pem" in
      if str_eq host ""
      then none
      else if is_some (os.read_chain filename)
      then some filename
      else none

  unfoldable pub chain_filename_for_authority : Option String → Option String
  unfolding chain_file_of_host
  chain_filename_for_authority none = none
  chain_filename_for_authority (some url) =
      if str_eq url "" then none else chain_file_of_host (os.hostname url)

  unfoldable pub chain_path_for_authority : Option String → Option String
  unfolding chain_filename_for_authority
  chain_path_for_authority url = chain_filename_for_authority url

  unfoldable pub all_bundled_chain_paths : List String
  all_bundled_chain_paths = os.pem_files

  chain_file_of_host-is_file :
      (host : Option String) (filename : String)
      → chain_file_of_host host ≡ some filename
      → is_some (os.read_chain filename) ≡ true
  unfolding chain_file_of_host
  chain_file_of_host-is_file none filename named = absurd (ground arith)
  chain_file_of_host-is_file (some host) filename named =
      elim (Bool-cases (is_some (os.read_chain (host <> ".pem")))) [
        | inl there ↦ ground arith
        | inr missing ↦ absurd (ground arith)
      ]

  -- A chain that is named is a file that is there.
  pub chain_filename-is_file :
      (url : Option String) (filename : String)
      → chain_filename_for_authority url ≡ some filename
      → is_some (os.read_chain filename) ≡ true
  unfolding chain_filename_for_authority
  chain_filename-is_file none filename named = absurd (ground arith)
  chain_filename-is_file (some url) filename named = elim (Bool-cases (str_eq url "")) [
    | inl empty ↦ absurd (ground arith)
    | inr full ↦ chain_file_of_host-is_file (os.hostname url) filename (ground arith)
  ]
