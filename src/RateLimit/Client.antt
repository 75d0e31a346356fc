-- ===== src/RateLimit/Client.antt =====
-- The address that a request counts under is the one that the proxy appended.
use Prim.Native.Char.{code}
use truthpage.Prelude.{
  Bool-cases, List, Option, String, [], any_char, ap, arith, cons_first, false, inl, inr, is_blank,
  refl, some, split, str_eq, str_eq_iff, strip, true, ◌<>◌, ◌==◌, ◌∷◌, ◌≡◌,
}
use truthpage.RateLimit.{get_client_ip, last_of}

filled : (s t : String) → is_blank t ≡ false → str_eq (s <> t) "" ≡ false
filled s t full = elim (Bool-cases (str_eq (s <> t) "")) [
  | inr e ↦ e
  | inl e ↦
      let blank : is_blank (s <> t) ≡ true = ap is_blank ((str_eq_iff (s <> t) "").0 e) in
      absurd (no_blank s blank)
]
  where
    no_blank : (u : String) → is_blank (u <> t) ≡ true → ⊥
    no_blank String.[] blank = ground arith
    no_blank (String.◌∷◌ c u) blank = ground arith

-- A text with no comma is one part.
split_one : (s : String) → any_char (λ c. c == 44) s ≡ false → split s 44 ≡ s ∷ []
unfolding split cons_first
split_one String.[] plain = refl
split_one (String.◌∷◌ c s) plain = ground (arith, split_one s)

-- The parts behind the first one end in what stands behind the last comma.
parts :
    (s last : String)
    → any_char (λ c. c == 44) last ≡ false
    → (first : String) × (rest : List String) × (split (s <> "," <> last) 44 ≡ first ∷ rest)
      × ((default : String) → last_of default rest ≡ last)
unfolding split cons_first last_of
parts String.[] last plain = ("", last ∷ [], rw (split_one last plain) refl, λ default. refl)
parts (String.◌∷◌ c s) last plain =
    let (first, rest, e, ends) = parts s last plain in
    elim (Bool-cases (code c == 44)) [
      | inl comma ↦ ("", first ∷ rest, rw (comma, e) refl, λ default. ends first)
      | inr other ↦ (String.◌∷◌ c first, rest, rw (other, e) refl, ends)
    ]

-- Whatever a client sends as X-Forwarded-For, its request counts under the address that the proxy
-- appends behind a comma, blanks left off.
pub get_client_ip_lem :
    (spoofed appended : String) (client : Option String)
    → any_char (λ c. c == 44) appended ≡ false
    → get_client_ip (some (spoofed <> "," <> appended)) client ≡ strip appended
unfolding get_client_ip last_of
get_client_ip_lem spoofed appended client plain =
    let (first, rest, e, ends) = parts spoofed appended plain in
    rw (filled spoofed ("," <> appended) refl, e) (ap strip (ends first))
