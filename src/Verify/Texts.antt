-- ===== src/Verify/Texts.antt =====
-- src/verify.rs: the texts that a header `Signature-Input` holds for `parse_signature_input`.
use infernal_client_rs.Common.{ℕ, Lacks, ◌∷◌, ◌≡◌, refl, ◌++◌}
use infernal_client_rs.Common.Text.{Str, codes}
use infernal_client_rs.Common.Split.{split_once-append}
use infernal_client_rs.Common.First.{IsFirst, split_once_iff}
use infernal_client_rs.Wire.{covered_components}
use infernal_client_rs.Wire.Layout.{input_layout, parameters_layout}

-- The parameters, and the four texts in them
pub record Texts : Type 0 where
  pub parameters : Str
  pub created : Str
  pub expires : Str
  pub nonce : Str
  pub key_id : Str

-- The header holds these texts, each up to the first place where what follows it stands.
pub record HasTexts (value : Str) (t : Texts) : Type 0 where
  pub times : Str
  pub after_created : Str
  pub after_expires : Str
  pub after_nonce : Str
  pub label : value ≡ input_layout t.parameters
  pub components : t.parameters ≡ covered_components ++ (codes ";created=" ++ times)
  pub created_first : IsFirst times (codes ";expires=") t.created after_created
  pub expires_first : IsFirst after_created (codes ";nonce=\"") t.expires after_expires
  pub nonce_first : IsFirst after_expires (codes "\";keyid=\"") t.nonce after_nonce
  pub key_id_first : IsFirst after_nonce (codes "\";alg=\"") t.key_id (codes "ed25519\"")

-- The parameters of texts that are found are the layout of the four.
assemble :
    (c e n k : Str) {p v r r2 r3 r4 a : Str}
    → p ≡ covered_components ++ v
    → v ≡ codes ";created=" ++ r
    → r ≡ c ++ (codes ";expires=" ++ r2)
    → r2 ≡ e ++ (codes ";nonce=\"" ++ r3)
    → r3 ≡ n ++ (codes "\";keyid=\"" ++ r4)
    → r4 ≡ k ++ (codes "\";alg=\"" ++ a)
    → a ≡ codes "ed25519\""
    → p ≡ parameters_layout c e n k
unfolding parameters_layout
assemble c e n k h0 h1 h2 h3 h4 h5 h6 = rw (h0, h1, h2, h3, h4, h5, h6)

pub HasTexts-layout :
    (value : Str) (t : Texts)
    → HasTexts value t
    → t.parameters ≡ parameters_layout t.created t.expires t.nonce t.key_id
HasTexts-layout value t w =
    assemble t.created t.expires t.nonce t.key_id w.components refl w.created_first.0
      w.expires_first.0 w.nonce_first.0 w.key_id_first.0 refl

-- A delimiter whose first character the text before it lacks stands first behind that text.
IsFirst-Lacks :
    (a : Str) (d : ℕ) (ds b : Str) → Lacks d a → IsFirst (a ++ (d ∷ ds ++ b)) (d ∷ ds) a b
IsFirst-Lacks a d ds b h = (split_once_iff _ _ a b).0 (split_once-append a d ds b h)

-- A layout of four texts has these texts.
pub layout-HasTexts :
    (c e n k : Str)
    → Lacks b';' c
    → Lacks b';' e
    → Lacks b'"' n
    → Lacks b'"' k
    → HasTexts (input_layout (parameters_layout c e n k)) (record {
      parameters = parameters_layout c e n k;
      created = c;
      expires = e;
      nonce = n;
      key_id = k;
    })
unfolding parameters_layout
layout-HasTexts c e n k hc he hn hk = record {
  times = _;
  after_created = _;
  after_expires = _;
  after_nonce = _;
  label = refl;
  components = refl;
  created_first = IsFirst-Lacks c b';' (codes "expires=") _ hc;
  expires_first = IsFirst-Lacks e b';' (codes "nonce=\"") _ he;
  nonce_first = IsFirst-Lacks n b'"' (codes ";keyid=\"") _ hn;
  key_id_first = IsFirst-Lacks k b'"' (codes ";alg=\"") (codes "ed25519\"") hk;
}
