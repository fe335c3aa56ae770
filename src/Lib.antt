-- ===== src/Lib.antt =====
-- infernal-client-rs: the client side of a kernel's signed REST contract.
--
-- A workload of this system holds an Ed25519 credential (src/credential.rs). It proves its identity
-- to the kernel once, with an enrollment submission signed over a challenge (src/enrollment.rs), and
-- then signs every HTTP request (src/request.rs) under one fixed message-signature profile
-- (src/wire.rs). A workload that receives such a request verifies it (src/verify.rs). The identity that a
-- kernel process publishes is read by src/kernel_identity.rs, src/transport.rs makes the calls over
-- HTTP, and what fails returns a `ClientError` (src/error.rs). The files of this library follow those parts:
--
--   Common          texts as lists of code points, UTF-8, byte indices, decimal digits, i64, list
--                   lemmas, `trim`
--   Error           src/error.rs: `ClientError`, its text, and the `Result` of the crate; Text: which
--                   errors print the same
--   Call            calls that change the world outside and may fail
--   Panic           runs that may panic: checked arithmetic, slices, and rules for what a run gives
--   Deps            the crates called: uuid, base64, sha2, ed25519-dalek
--   Credential      src/credential.rs: `restore`, `fingerprint`, `generate`, `sign`, `verify`
--   KernelIdentity  src/kernel_identity.rs: `from_json`, `decode_fixed`, `verify`;
--                   Published: what is accepted, and what a published identity verifies
--   Enrollment      src/enrollment.rs: `proof_message`, `sign`, `challenge_bytes`;
--                   Frames and Proof: the message; Submission: `sign`; Kernel: the kernel's reading;
--                   Separation: the message against the signature base; Secrecy: where the token
--                   gets to
--   Transport       src/transport.rs: `new`, `with_extra_root_certificate`,
--                   `validate_pem_certificate`; Client: the client's calls; Pem: root certificates;
--                   Outcome, Calls and Identity: how each call ends; Session: calls one after
--                   another; Enroll: the calls of an enrollment in their order; Evaluator: a
--                   service that trusts what the kernel publishes; PanicFree: the check of a root
--                   certificate with its indices and slices
--   Wire            src/wire.rs: the signature base, its parameters, the digest, the checks of values;
--                   Metadata and Values: what the checks accept; Layout: what the texts determine;
--                   PanicFree: the check of metadata where overflow panics
--   Request         src/request.rs: `new`, `sign_with`, `sign`, `headers`, `generate_nonce`;
--                   Parts: validation; Signing: the result and its headers; Nonce: nonces;
--                   Headers: the headers as a server finds them; PanicFree: signing where overflow panics
--   Verify          src/verify.rs: `from_wire`, `verify_incoming` and the parsers it calls;
--                   Texts, Search, Timestamp, Input, Signature: the parsers; Accept: what the
--                   verifier accepts; Refuse, Refuse.Checks and Refuse.Order: how it refuses;
--                   Malformed: how the parser of `Signature-Input` refuses; Received and RoundTrip:
--                   signing against verifying; Tampered: late and altered requests;
--                   Exchange: every end of signing and verifying; Window:
--                   replays; Binding and Authentic: what a signature binds; PanicFree: verifying where
--                   overflow panics
--   Network         workloads that enroll and then sign requests, a kernel that registers them, a
--                   network, and a server that verifies, as a step relation; Channel: the
--                   specification, a channel of messages between members; Accounts, Signature and
--                   Invariant: what holds in every world; Refinement: the system against the channel;
--                   Registration, Progress and Service: that a workload gets through; Isolation:
--                   where what is accepted for a service comes from; Replay: for how long a request
--                   is accepted again
--   Suite           the crate's own tests (`mod tests` of each file), as functions of what they draw
--                   at random
--   Tests           concrete inputs, over small concrete functions in place of the crates
--
-- How the code is rendered. A `&str` is the list of its code points (`Str`), a `Vec<u8>` or a byte
-- array a list of numbers (`Bytes`); `try_into` to an array is a test of the length (`to_array`).
-- `as_bytes` is the UTF-8 encoding, written out, so that a test on bytes is a test on bytes. An i64
-- is an integer with the wrap-around of `-` (`sub_i64`) and the saturation of `saturating_add`
-- written out; a theorem asks for values in range where it needs them. `as u32` is the remainder by
-- 2^32. `?` is the bind of `Result`, an early return is `refuse_if`, and `map_err(|_| e)` is `ok_or`.
-- Every definition is structural recursion, so nothing runs on fuel but the printing of decimal numbers,
-- where a number serves as its own bound and every step divides it by ten.
--
-- Parameters. The operations of the crates are the fields of `Deps`, which every definition that
-- calls them takes as an instance; what a theorem needs of them is a record of laws (`UuidLaws`,
-- `Base64Laws`, `Sha256Laws`, `Ed25519Laws`), each of which states documented behaviour and holds of the functions
-- in Tests.Toy. The random source, the JSON parser, the caller's signing closure and the clock are
-- arguments too. The HTTP client is the record `Http` (Transport). Executing one request in a world
-- gives an answer, which is a response or an error that prints as a text, and the world that this
-- leads to. What a world is, is left open: in one that counts or records the exchanges, a call that
-- makes one too many or too few leaves another world. What the client does to a URL or a header on
-- the way is its own.
--
-- Panics. The functions above are those of a build where overflow is silent, and
-- `validate_pem_certificate` cuts a text by `split_once`. What may panic in the code stands beside them
-- once more, as runs (`Panic.Run`) that are named with `_run`: the one difference of two i64
-- (`validate_signature_metadata_run`, in `sign_with_run` and `verify_incoming_run`), where overflow
-- panics; and the byte indices that `find` gives, their sums, which are 64 bits wide, and the slices
-- (`validate_pem_certificate_run`), where a place out of range or inside a character panics.
--
-- That signatures cannot be forged is no law. Verify.Authentic takes it as an argument, and the
-- network of Network delivers whatever it likes as long as a signature in it that passes under an
-- honest public key is over bytes that were signed with that key, for an enrollment or for a request
-- (`Unforged`): replays, mixtures of requests, garbage, and what the holders of other registered
-- keys make up are delivered too. The kernel is not in the repository: what is taken of it is that
-- it registers a submission only if it verifies (`Verifies`), as src/enrollment.rs documents.
--
-- The code keeps no state of its own: a client, a credential and a public key are values, and the
-- verifier remembers no nonce. The worlds of Network (a clock, what was signed, registered and accepted)
-- are the state of a system that uses it, and Channel.ChannelStep is what that system promises.
--
-- Not modelled: what the HTTP client and TLS do with a request, the panic of `generate` where the
-- random source fails, src/lib.rs (module declarations), the accessors (they are the fields), the
-- JSON text of the records but for one that a test prints, and the sockets of two tests, of which
-- Suite.Sockets has what the servers write.
pub mod Common
pub mod Error
pub mod Panic
pub mod Call
pub mod Deps
pub mod Credential
pub mod KernelIdentity
pub mod Enrollment
pub mod Transport
pub mod Wire
pub mod Request
pub mod Verify
pub mod Network
pub mod Suite
pub mod Tests
