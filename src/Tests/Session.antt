-- ===== src/Tests/Session.antt =====
-- src/transport.rs: four calls over a concrete HTTP client whose world is the list of the requests that
-- it has been given.
use infernal_client_rs.Common.{◌≡◌, List, [], ◌∷◌, ◌++◌}
use infernal_client_rs.Common.Text.{codes}
use infernal_client_rs.Transport.{Http, HttpRequest, done}
use infernal_client_rs.Transport.Session.{
  Command, sends, fetches, asks, submits, Replies, perform, requests_of, perform-Replies,
}
use infernal_client_rs.Tests.Toy.{toy}
use infernal_client_rs.Tests.Enrollment.{submission_01}
use infernal_client_rs.Tests.Transport.{net, response_01, base_01, signed_01}

abbrev recording : Http
recording = record net {
  World = List HttpRequest;
  execute = λ client request seen. (done response_01, seen ++ (request ∷ []));
}

abbrev commands_01 : List Command
commands_01 =
    fetches base_01
    ∷ asks base_01 (codes "pod-uid") (codes "token")
    ∷ submits base_01 submission_01
    ∷ sends signed_01
    ∷ []

perform-Replies_example :
    Replies recording commands_01
      (done response_01 ∷ done response_01 ∷ done response_01 ∷ done response_01 ∷ [])
      (perform recording tt commands_01 []).0
    × ((perform recording tt commands_01 []).1 ≡ requests_of recording commands_01)
perform-Replies_example = perform-Replies recording tt commands_01 []
