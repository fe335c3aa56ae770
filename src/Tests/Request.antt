-- ===== src/Tests/Request.antt =====
-- src/request.rs at concrete inputs.
use infernal_client_rs.Common.{◌≡◌, ◌↔◌, refl, arith}
use infernal_client_rs.Common.Text.{codes, trim, is_whitespace}
use mathlib.Core.List.{cons-ne-nil}
use infernal_client_rs.Error.{ok}
use infernal_client_rs.Request.{RequestParts, new}
use infernal_client_rs.Request.Parts.{IsValid, new-ok_iff}
use infernal_client_rs.Tests.Toy.{toy, three}

abbrev pub parts_01 : RequestParts
parts_01 = record {
  method = codes "POST";
  authority = codes "kernel.example.test";
  path_and_query = codes "/v1/subscriptions";
  content_type = codes "application/json";
  body = codes "{}";
  request_id = three;
}

new-ok_iff_example :
    (new
        (codes "POST")
        (codes "kernel.example.test")
        (codes "/v1/subscriptions")
        (codes "application/json")
        (codes "{}")
        three
      ≡ ok parts_01)
    ↔ (IsValid parts_01 × (parts_01 ≡ parts_01))
new-ok_iff_example =
    new-ok_iff (codes "POST") (codes "kernel.example.test") (codes "/v1/subscriptions")
      (codes "application/json") (codes "{}") three parts_01

pub parts_01-IsValid : IsValid parts_01
unfolding trim is_whitespace
parts_01-IsValid = record {
  method = (cons-ne-nil _ _, omega arith);
  authority = (cons-ne-nil _ _, omega arith, omega arith);
  path_and_query = ((codes "v1/subscriptions", refl), omega arith, omega arith);
  content_type = (cons-ne-nil _ _, refl, omega arith);
}
