-- ===== src/Request/Headers.antt =====
-- src/request.rs and src/verify.rs: the headers of a signed request, as a server finds them after
-- they have passed through proxies.
use infernal_client_rs.Common.{
  ◌+◌, All-mono, ◌≡◌, refl, ◌∙◌, Bool, false, some, none, List, [], ◌∷◌, ◌++◌, map, list_eq,
  if◌then◌else◌, All,
}
use mathlib.Core.List.{filter_map, filter_map-append, Perm, perm-replicate}
use mathlib.Core.List.Perm
use mathlib.Core.Path.{subst}
use infernal_client_rs.Common.Text.{Str, codes, is_ascii_uppercase}
use infernal_client_rs.Error.{ok}
use infernal_client_rs.Deps.{Deps, UuidLaws}
use infernal_client_rs.Request.{SignedRequest, headers}
use infernal_client_rs.Verify.{from_wire}
use infernal_client_rs.Verify.Received.{received_as}

-- `to_ascii_lowercase`: names of headers are compared without regard to case.
abbrev pub to_ascii_lowercase : Str → Str
to_ascii_lowercase = map λ c. if is_ascii_uppercase c then c + 32 else c

abbrev has_name : Str → Str × Str → Bool
has_name name header = list_eq (to_ascii_lowercase header.0) name

-- The values of all headers of a name
unfoldable pub find_all : Str → List (Str × Str) → List Str
find_all name = filter_map λ header. if has_name name header then some header.1 else none

-- The names that the profile asks for
abbrev pub profile_names : List Str
profile_names =
    codes "content-type"
    ∷ codes "content-digest"
    ∷ codes "infernal-service-id"
    ∷ codes "infernal-instance-id"
    ∷ codes "infernal-request-id"
    ∷ codes "signature-input"
    ∷ codes "signature"
    ∷ []

-- A header of another name
abbrev pub IsExtra : Str × Str → Type 0
IsExtra header = All (λ name. has_name name header ≡ false) profile_names

-- A header with its name in lower case, as HTTP/2 spells it
abbrev pub lower_name : Str × Str → Str × Str
lower_name header = (to_ascii_lowercase header.0, header.1)

-- What may happen to headers on their way: they change their order, names change their case, and
-- headers of other names are added.
pub record Relays (sent received : List (Str × Str)) : Type 0 where
  pub extra : List (Str × Str)
  pub others : All IsExtra extra
  pub order : Perm (map lower_name received) (map lower_name (sent ++ extra))

find_all-others :
    (name : Str) (extra : List (Str × Str))
    → All (λ header. has_name name header ≡ false) extra
    → find_all name extra ≡ []
unfolding find_all filter_map
find_all-others name [] _ = refl
find_all-others name (h ∷ extra) (e, es) = rw (e, find_all-others name extra es) refl

-- Only the lower case of the names counts.
find_lower : Str → List (Str × Str) → List Str
find_lower name = filter_map λ header. if list_eq header.0 name then some header.1 else none

find_all_lower :
    (name : Str) (received : List (Str × Str))
    → find_lower name (map lower_name received) ≡ find_all name received
unfolding find_all find_lower filter_map
find_all_lower name [] = refl
find_all_lower name (h ∷ received) = rw (find_all_lower name received) refl

find_all-once :
    (name v : Str) (sent extra received : List (Str × Str))
    → find_all name sent ≡ v ∷ []
    → All (λ header. has_name name header ≡ false) extra
    → Perm (map lower_name received) (map lower_name (sent ++ extra))
    → find_all name received ≡ v ∷ []
unfolding find_all find_lower
find_all-once name v sent extra received once others order =
    let found : find_lower name (map lower_name (sent ++ extra)) ≡ v ∷ [] =
      find_all_lower name (sent ++ extra)
      ∙ filter_map-append _ sent extra
      ∙ rw (once, find_all-others name extra others) refl in
    let single : mathlib.Core.Nat.ℕ = 1 in
    (perm-replicate (hlevel) single v).0 (
      subst (λ l. Perm l (v ∷ [])) (find_all_lower name received)
        (subst (Perm (find_lower name (map lower_name received))) found (Perm.filter_map _ order)))

module _ ⦃d : Deps⦄ where
  open d use {uuid_to_string, uuid_parse}

  -- A header of a signed request, as it is found after the way
  abbrev pub Finds : List (Str × Str) → Str → Str → Type 0
  Finds received name value = find_all name received ≡ value ∷ []

  -- Each header that the profile asks for is found exactly once.
  pub relayed-Finds :
      (signed : SignedRequest) (received : List (Str × Str))
      → Relays (headers signed) received
      → Finds received (codes "content-type") signed.parts.content_type
        × Finds received (codes "content-digest") signed.content_digest
        × Finds received (codes "infernal-service-id") (uuid_to_string signed.service_id)
        × Finds received (codes "infernal-instance-id") (uuid_to_string signed.instance_id)
        × Finds received (codes "infernal-request-id") (uuid_to_string signed.parts.request_id)
        × Finds received (codes "signature-input") signed.signature_input
        × Finds received (codes "signature") signed.signature
  unfolding headers find_all filter_map list_eq
  relayed-Finds signed received way =
      let find : (name v : Str)
          → find_all name (headers signed) ≡ v ∷ []
          → ((h : Str × Str) → IsExtra h → has_name name h ≡ false)
          → Finds received name v =
        λ name v once other.
          find_all-once name v (headers signed) way.extra received once
            (All-mono IsExtra _ other way.extra way.others) way.order in
      (
        find _ _ refl (λ h e. e.0),
        find _ _ refl (λ h e. e.1.0),
        find _ _ refl (λ h e. e.1.1.0),
        find _ _ refl (λ h e. e.1.1.1.0),
        find _ _ refl (λ h e. e.1.1.1.1.0),
        find _ _ refl (λ h e. e.1.1.1.1.1.0),
        find _ _ refl (λ h e. e.1.1.1.1.1.1.0),
      )

  -- However the headers are reordered on their way, whatever the case that their names are changed
  -- to, and whatever headers of other names are added, each header that the profile asks for is
  -- found exactly once; from_wire on the
  -- values found reads back the request as it was signed, and the request's id parses back.
  pub headers-from_wire :
      UuidLaws
      → (signed : SignedRequest) (received : List (Str × Str)) → Relays (headers signed) received
      → (service : Str) × (instance_ : Str) × (id : Str) × (digest : Str) × (input : Str)
        × (signature : Str) × Finds received (codes "content-type") signed.parts.content_type
        × Finds received (codes "infernal-service-id") service
        × Finds received (codes "infernal-instance-id") instance_
        × Finds received (codes "infernal-request-id") id
        × Finds received (codes "content-digest") digest
        × Finds received (codes "signature-input") input
        × Finds received (codes "signature") signature
        × (from_wire signed.parts service instance_ digest input signature
            ≡ ok (received_as signed))
        × (uuid_parse id ≡ some signed.parts.request_id)
  unfolding from_wire
  headers-from_wire laws signed received way =
      let (content_type, digest, service, instance_, id, input, signature) =
        relayed-Finds signed received way in
      (
        _,
        _,
        _,
        _,
        _,
        _,
        content_type,
        service,
        instance_,
        id,
        digest,
        input,
        signature,
        rw (laws.parse-to_string signed.service_id, laws.parse-to_string signed.instance_id),
        laws.parse-to_string signed.parts.request_id,
      )
