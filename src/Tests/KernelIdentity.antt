-- ===== src/Tests/KernelIdentity.antt =====
-- src/kernel_identity.rs at a concrete credential and a parser that knows its one response.
use infernal_client_rs.Common.{◌≡◌, ◌↔◌, Option, none, some}
use infernal_client_rs.Common.Text.{Str, codes}
use infernal_client_rs.Error.{ok}
use infernal_client_rs.Credential.{ClientCredential, generate}
use infernal_client_rs.KernelIdentity.{KernelIdentityResponse, from_json}
use infernal_client_rs.KernelIdentity.Published.{States, response_of, identity_of, from_json-ok_iff}
use infernal_client_rs.Tests.Toy.{toy, one, two, three}

abbrev pub credential_02 : ClientCredential
credential_02 = generate 5 two three one

abbrev pub parse_json_01 : Str → Option KernelIdentityResponse
parse_json_01 body = some (response_of credential_02)

from_json-ok_iff_example :
    (from_json parse_json_01 (codes "{}") ≡ ok (identity_of credential_02)) ↔ (
      (response : KernelIdentityResponse) × (parse_json_01 (codes "{}") ≡ some response)
      × States response (identity_of credential_02))
from_json-ok_iff_example = from_json-ok_iff parse_json_01 (codes "{}") (identity_of credential_02)

-- A parser that reads nothing
abbrev parse_nothing : Str → Option KernelIdentityResponse
parse_nothing body = none
