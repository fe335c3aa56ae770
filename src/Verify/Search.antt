-- ===== src/Verify/Search.antt =====
-- src/verify.rs: `parse_signature_input` finds the texts of a header, before it reads any.
use infernal_client_rs.Common.{
  ◌≡◌, ◌⊎◌, inl, inr, Option-cases, refl, sym, ap, ◌∙◌, Bool, true, false, not, Option, none, some,
  ◌++◌, append_assoc, list_eq, list_eq_iff, and_then, and_then-eq-some, if◌then◌else◌,
}
use infernal_client_rs.Common.Text.{Str, codes, strip_prefix, split_once}
use mathlib.Core.Path.{subst}
use infernal_client_rs.Common.Split.{strip_prefix-append, strip_prefix_sound}
use infernal_client_rs.Common.First.{IsFirst, split_once_iff}
use infernal_client_rs.Error.{
  Result, ok, err, ClientError, ◌>>=◌, ◌>>◌, >>=-congr, refuse_if, ok_or,
}
use infernal_client_rs.Deps.{Deps}
use infernal_client_rs.Wire.{signature_label, covered_components}
use infernal_client_rs.Wire.{validate_signature_metadata}
use infernal_client_rs.Verify.{
  SignatureMetadata, parse_timestamp, parse_signature_input, bad_signature_input,
}
use infernal_client_rs.Verify.Texts.{Texts, HasTexts}

-- The strips and splits of the parser, as one search, from the last of them to the first
abbrev texts_key_id : Str → Str → Str → Str → Str → Option Texts
texts_key_id p c e n r = and_then (split_once r (codes "\";alg=\"")) λ (k, a).
    if list_eq a (codes "ed25519\"")
    then some (record { parameters = p; created = c; expires = e; nonce = n; key_id = k })
    else none

abbrev texts_nonce : Str → Str → Str → Str → Option Texts
texts_nonce p c e r =
    and_then (split_once r (codes "\";keyid=\"")) λ (n, rest). texts_key_id p c e n rest

abbrev texts_expires : Str → Str → Str → Option Texts
texts_expires p c r =
    and_then (split_once r (codes ";nonce=\"")) λ (e, rest). texts_nonce p c e rest

abbrev texts_created : Str → Str → Option Texts
texts_created p r = and_then (split_once r (codes ";expires=")) λ (c, rest). texts_expires p c rest

abbrev texts_of : Str → Option Texts
texts_of value = and_then (strip_prefix value (signature_label ++ codes "=")) λ p.
    and_then (and_then (strip_prefix p covered_components) λ v. strip_prefix v (codes ";created="))
      λ r. texts_created p r

if-some {ℓ} :
    {A : Type ℓ} (b : Bool) {a x : A} → (if b then some a else none) ≡ some x → (b ≡ true) × (a ≡ x)
if-some true h = (refl, cc)
if-some false h = cc

-- What a search that succeeds has found
key_id_found :
    (p c e n r : Str) {t : Texts}
    → texts_key_id p c e n r ≡ some t
    → (k : Str) × IsFirst r (codes "\";alg=\"") k (codes "ed25519\"")
      × (t ≡ record { parameters = p; created = c; expires = e; nonce = n; key_id = k })
key_id_found p c e n r h =
    let ((k, a), found, next) = and_then-eq-some (split_once r (codes "\";alg=\"")) _ h in
    let (last, same) = if-some _ next in
    (
      k,
      subst (IsFirst r (codes "\";alg=\"") k) ((list_eq_iff a (codes "ed25519\"")).0 last)
          ((split_once_iff r (codes "\";alg=\"") k a).0 found),
      sym same,
    )

nonce_found :
    (p c e r : Str) {t : Texts}
    → texts_nonce p c e r ≡ some t
    → (n : Str) × (r4 : Str) × (k : Str) × IsFirst r (codes "\";keyid=\"") n r4
      × IsFirst r4 (codes "\";alg=\"") k (codes "ed25519\"")
      × (t ≡ record { parameters = p; created = c; expires = e; nonce = n; key_id = k })
nonce_found p c e r h =
    let ((n, r4), found, next) = and_then-eq-some (split_once r (codes "\";keyid=\"")) _ h in
    let (k, hk, same) = key_id_found p c e n r4 next in
    (n, r4, k, (split_once_iff r (codes "\";keyid=\"") n r4).0 found, hk, same)

expires_found :
    (p c r : Str) {t : Texts}
    → texts_expires p c r ≡ some t
    → (e : Str) × (r3 : Str) × (n : Str) × (r4 : Str) × (k : Str) × IsFirst r
        (codes ";nonce=\"")
        e
        r3
      × IsFirst r3 (codes "\";keyid=\"") n r4
      × IsFirst r4 (codes "\";alg=\"") k (codes "ed25519\"")
      × (t ≡ record { parameters = p; created = c; expires = e; nonce = n; key_id = k })
expires_found p c r h =
    let ((e, r3), found, next) = and_then-eq-some (split_once r (codes ";nonce=\"")) _ h in
    let (n, r4, k, hn, hk, same) = nonce_found p c e r3 next in
    (e, r3, n, r4, k, (split_once_iff r (codes ";nonce=\"") e r3).0 found, hn, hk, same)

texts_of-HasTexts : (value : Str) (t : Texts) → texts_of value ≡ some t → HasTexts value t
texts_of-HasTexts value t h =
    let (p, h0, k0) =
      and_then-eq-some (strip_prefix value (signature_label ++ codes "="))
        (λ p.
          and_then
            (and_then (strip_prefix p covered_components) λ v. strip_prefix v (codes ";created="))
            λ r. texts_created p r)
        h in
    let (r, h1, k1) =
      and_then-eq-some
        (and_then (strip_prefix p covered_components) λ v. strip_prefix v (codes ";created="))
        (texts_created p) k0 in
    let (v, hv, hr) = and_then-eq-some (strip_prefix p covered_components) _ h1 in
    let ((c, r2), found, next) = and_then-eq-some (split_once r (codes ";expires=")) _ k1 in
    let (e, r3, n, r4, k, he, hn, hk, same) = expires_found p c r2 next in
    subst (HasTexts value) (sym same) (record {
      times = r;
      after_created = r2;
      after_expires = r3;
      after_nonce = r4;
      label =
          strip_prefix_sound value (signature_label ++ codes "=") h0
          ∙ append_assoc signature_label (codes "=") p;
      components =
          strip_prefix_sound p covered_components hv
          ∙ ap (λ x. covered_components ++ x) (strip_prefix_sound v (codes ";created=") hr);
      created_first = (split_once_iff r (codes ";expires=") c r2).0 found;
      expires_first = he;
      nonce_first = hn;
      key_id_first = hk;
    })

HasTexts-texts_of : (value : Str) (t : Texts) → HasTexts value t → texts_of value ≡ some t
HasTexts-texts_of value t w =
    let labelled : strip_prefix value (signature_label ++ codes "=") ≡ some t.parameters =
      ap (λ x. strip_prefix x (signature_label ++ codes "="))
        (w.label ∙ sym (append_assoc signature_label (codes "=") t.parameters))
      ∙ strip_prefix-append (signature_label ++ codes "=") t.parameters in
    let covered : strip_prefix t.parameters covered_components
        ≡ some (codes ";created=" ++ w.times) =
      ap (λ x. strip_prefix x covered_components) w.components
      ∙ strip_prefix-append covered_components (codes ";created=" ++ w.times) in
    rw
      (
        labelled,
        covered,
        strip_prefix-append (codes ";created=") w.times,
        (split_once_iff w.times (codes ";expires=") t.created w.after_created).1 w.created_first,
        (split_once_iff w.after_created (codes ";nonce=\"") t.expires w.after_expires).1
            w.expires_first,
        (split_once_iff w.after_expires (codes "\";keyid=\"") t.nonce w.after_nonce).1
            w.nonce_first,
        (split_once_iff w.after_nonce (codes "\";alg=\"") t.key_id (codes "ed25519\"")).1
            w.key_id_first,
        (list_eq_iff (codes "ed25519\"") (codes "ed25519\"")).1 refl,
      )
      refl

-- A search that is cut into steps is cut at the same places as the parser.
ok_or-and_then {ℓ κ μ} :
    {A : Type ℓ} {B : Type κ} {C : Type μ} (o : Option A) (f : A → Option B) (e : ClientError)
    (g : B → Result C)
    → (ok_or (and_then o f) e >>= g) ≡ (ok_or o e >>= λ a. (ok_or (f a) e >>= g))
ok_or-and_then none f e g = refl
ok_or-and_then (some a) f e g = refl

ok_or-test {ℓ κ} :
    {A : Type ℓ} {B : Type κ} (b : Bool) (a : A) (e : ClientError) (g : A → Result B)
    → (ok_or (if b then some a else none) e >>= g) ≡ (refuse_if (not b) e >> g a)
ok_or-test true a e g = refl
ok_or-test false a e g = refl

module _ ⦃d : Deps⦄ where
  open d use {uuid_parse}

  -- What is left to do once the texts are found
  abbrev pub read_texts : Str → Str → Str → Str → Str → Result SignatureMetadata
  read_texts parameters created expires nonce key_id = do
    created ← parse_timestamp created
    expires ← parse_timestamp expires
    validate_signature_metadata created expires nonce
    key_id ← ok_or (uuid_parse key_id) bad_signature_input
    ok (record { parameters = parameters; created = created; expires = expires; key_id = key_id })

  abbrev pub read_found : Texts → Result SignatureMetadata
  read_found t = read_texts t.parameters t.created t.expires t.nonce t.key_id

  parse_texts :
      (value : Str)
      → parse_signature_input value ≡ (ok_or (texts_of value) bad_signature_input >>= read_found)
  unfolding parse_signature_input
  parse_texts value = sym (
      ok_or-and_then (strip_prefix value (signature_label ++ codes "=")) _ bad_signature_input
        read_found
      ∙ >>=-congr _ (λ p.
        ok_or-and_then
          (and_then (strip_prefix p covered_components) λ v. strip_prefix v (codes ";created=")) _
          bad_signature_input read_found
        ∙ >>=-congr _ (λ r.
          ok_or-and_then (split_once r (codes ";expires=")) _ bad_signature_input read_found
          ∙ >>=-congr _ (λ (c, r2).
            ok_or-and_then (split_once r2 (codes ";nonce=\"")) _ bad_signature_input read_found
            ∙ >>=-congr _ (λ (e, r3).
              ok_or-and_then (split_once r3 (codes "\";keyid=\"")) _ bad_signature_input read_found
              ∙ >>=-congr _ (λ (n, r4).
                ok_or-and_then (split_once r4 (codes "\";alg=\"")) _ bad_signature_input read_found
                ∙ >>=-congr _ (λ (k, a).
                  ok_or-test (list_eq a (codes "ed25519\"")) _ bad_signature_input read_found)))))))

  -- The parser reads the texts that the header has, or refuses it for having none.
  pub parse-HasTexts :
      (value : Str) (t : Texts) → HasTexts value t → parse_signature_input value ≡ read_found t
  parse-HasTexts value t w = parse_texts value ∙ rw (HasTexts-texts_of value t w) refl

  pub HasTexts-cases :
      (value : Str)
      → ((t : Texts) × HasTexts value t)
        ⊎ ((¬ ((t : Texts) × HasTexts value t))
            × (parse_signature_input value ≡ err bad_signature_input))
  HasTexts-cases value = elim (Option-cases (texts_of value)) [
    | inr (t, h) ↦ inl (t, texts_of-HasTexts value t h)
    | inl h ↦
        inr (λ (t, w). let found = HasTexts-texts_of value t w in cc, parse_texts value ∙ rw h refl)
  ]
