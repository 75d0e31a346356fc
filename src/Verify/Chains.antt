-- ===== src/Verify/Chains.antt =====
-- The name of a chain file ends in ".pem", so no other file of a pack has it.
use truthpage.Prelude.{
  Bool-cases, Option, String, arith, false, inl, inr, is_blank, is_some, none, refl, some, str_eq,
  str_eq_iff, true, ◌<>◌, ◌≡◌,
}
use truthpage.Platform.{Platform}
use truthpage.TsaChains.{chain_file_of_host, chain_filename_for_authority}
use truthpage.Evidence.{last_char}

last_char-append : (s t : String) → is_blank t ≡ false → last_char (s <> t) ≡ last_char t
last_char-append String.[] t filled = refl
last_char-append (String.◌∷◌ c String.[]) t filled = rw filled refl
last_char-append (String.◌∷◌ c (String.◌∷◌ d s)) t filled =
    last_char-append (String.◌∷◌ d s) t filled

-- A text that ends in another character than "m".
pub pem-ne :
    (host name : String)
    → str_eq (last_char name) "m" ≡ false
    → str_eq (host <> ".pem") name ≡ false
pem-ne host name other = elim (Bool-cases (str_eq (host <> ".pem") name)) [
  | inr e ↦ e
  | inl e ↦
      let same = (str_eq_iff (host <> ".pem") name).0 e in
      let ends : str_eq (last_char name) "m" ≡ true =
        rw (← same) (rw (last_char-append host ".pem" refl) refl) in
      absurd (ground arith)
]

module _ (os : Platform) where
  chain_file_of_host-pem :
      (host : Option String) (filename : String)
      → chain_file_of_host os host ≡ some filename
      → (stem : String) × (filename ≡ stem <> ".pem")
  unfolding chain_file_of_host
  chain_file_of_host-pem none filename named = absurd (ground arith)
  chain_file_of_host-pem (some host) filename named = elim (Bool-cases (str_eq host "")) [
    | inl e ↦ absurd (ground arith)
    | inr e ↦ elim (Bool-cases (is_some (os.read_chain (host <> ".pem")))) [
      | inl f ↦ (host, ground arith)
      | inr f ↦ absurd (ground arith)
    ]
  ]

  -- A named chain: its authority is not empty, and its name ends in ".pem".
  pub chain_filename-pem :
      (url filename : String)
      → chain_filename_for_authority os (some url) ≡ some filename
      → (str_eq url "" ≡ false) × ((stem : String) × (filename ≡ stem <> ".pem"))
  unfolding chain_filename_for_authority
  chain_filename-pem url filename named = elim (Bool-cases (str_eq url "")) [
    | inl e ↦ absurd (ground arith)
    | inr e ↦ (e, chain_file_of_host-pem (os.hostname url) filename (ground arith))
  ]
