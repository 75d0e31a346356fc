-- ===== src/Evidence/Toy.antt =====
-- A platform for the tests: every parameter is a function that can be run. An archive is a text in which
-- a plus stands before each character and before each member, and a full stop ends a text.
use Prim.Native.Char.{code}
use truthpage.Prelude.{
  Bool, Bool-cases, List, Option, String, [], ap, arith, false, if◌then◌else◌, inl, inr, join_with,
  map, none, refl, show, some, str_eq, str_eq_iff, true, ◌<>◌, ◌==◌, ◌∷◌, ◌≡◌,
}
use truthpage.Notice.{size}
use truthpage.Platform.{Member, Platform}
use truthpage.Verify.Named.{IsReliable, stored}

pub data Mode : Type 0 where
  in_list in_name in_content : Mode

enc_text : String → String → String
enc_text String.[] rest = ".." <> rest
enc_text (String.◌∷◌ c s) rest = "+" <> String.◌∷◌ c (enc_text s rest)

enc_members : List (String × String) → String
unfolding enc_text
enc_members [] = ""
enc_members ((name, content) ∷ members) =
    "++" <> enc_text name (enc_text content (enc_members members))

-- The rest of a name, the rest of a content, and the members behind them.
pub record Read : Type 0 where
  pub name : String
  pub content : String
  pub members : List (String × String)

dec_more : Mode → Bool → String → Read → Read
dec_more in_list true c r = record {
  name = "";
  content = "";
  members = (r.name, r.content) ∷ r.members;
}
dec_more in_list false c r = record { name = ""; content = ""; members = [] }
dec_more in_name true c r = record r { name = c <> r.name }
dec_more in_name false c r = record r { name = "" }
dec_more in_content true c r = record r { content = c <> r.content }
dec_more in_content false c r = record r { content = "" }

next_mode : Mode → Bool → Mode
next_mode in_list more = in_name
next_mode in_name true = in_name
next_mode in_name false = in_content
next_mode in_content true = in_content
next_mode in_content false = in_list

dec : Mode → String → Read
unfolding dec_more next_mode
dec mode String.[] = record { name = ""; content = ""; members = [] }
dec mode (String.◌∷◌ b String.[]) = record { name = ""; content = ""; members = [] }
dec mode (String.◌∷◌ b (String.◌∷◌ c s)) =
    let more = code b == 43 in
    dec_more mode more (String.◌∷◌ c String.[]) (dec (next_mode mode more) s)

dec-content :
    (s rest : String)
    → dec in_content (enc_text s rest)
      ≡ record { name = (dec in_list rest).name; content = s; members = (dec in_list rest).members }
unfolding dec enc_text
dec-content String.[] rest = refl
dec-content (String.◌∷◌ c s) rest =
    ap (dec_more in_content true (String.◌∷◌ c String.[])) (dec-content s rest)

dec-name :
    (s rest : String) → dec in_name (enc_text s rest) ≡ record (dec in_content rest) { name = s }
unfolding dec enc_text
dec-name String.[] rest = refl
dec-name (String.◌∷◌ c s) rest =
    ap (dec_more in_name true (String.◌∷◌ c String.[])) (dec-name s rest)

dec-members :
    (members : List (String × String)) → (dec in_list (enc_members members)).members ≡ members
unfolding dec enc_members
dec-members [] = refl
dec-members ((name, content) ∷ members) =
    rw
      (
        dec-name name (enc_text content (enc_members members)),
        dec-content content (enc_members members),
        dec-members members,
      )
      refl

unfoldable pub zip_bytes : List (String × String) → String
unfolding enc_members
zip_bytes members = enc_members members

unfoldable pub zip_members : String → Option (List Member)
unfolding dec
zip_members bytes = some (map stored (dec in_list bytes).members)

abbrev pub toy_chain : String → Option String
toy_chain name = if str_eq name "tsa.test.pem" then some "CHAIN" else none

abbrev pub toy : Platform
toy = record {
  strftime = λ format t. "t" <> show t;
  sha256 = λ bytes. "d" <> show (size bytes);
  encode = λ text. text;
  decode = λ bytes. bytes;
  csv_row = λ cells. join_with "," cells <> "\n";
  format_2f = λ n. show n;
  hostname = λ url. if str_eq url "https://tsa.test/tsr" then some "tsa.test" else none;
  pem_files = "tsa.test.pem" ∷ [];
  read_chain = toy_chain;
  openssl_verify = λ token digest chain. str_eq token ("over " <> digest);
  cert_window = λ chain. some "window";
  zip_bytes = zip_bytes;
  zip_members = zip_members;
}

starts_d : String → Bool
starts_d String.[] = false
starts_d (String.◌∷◌ c s) = code c == 100

digest_ne : (s t : String) → starts_d t ≡ false → str_eq ("d" <> s) t ≡ false
unfolding starts_d
digest_ne s t other = elim (Bool-cases (str_eq ("d" <> s) t)) [
  | inl e ↦
      let starts : true ≡ starts_d t = ap starts_d ((str_eq_iff ("d" <> s) t).0 e) in
      absurd (ground arith)
  | inr e ↦ e
]

pub toy-IsReliable : IsReliable toy
unfolding zip_bytes zip_members starts_d
toy-IsReliable = record {
  decode-encode = λ text. refl;
  zip_members-zip_bytes = λ members. ap (λ ms. some (map stored ms)) (dec-members members);
  digest-filled = λ bytes. digest_ne (show (size bytes)) "" refl;
  digest-available = λ bytes. digest_ne (show (size bytes)) "not_available" refl;
}
