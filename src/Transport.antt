-- ===== src/Transport.antt =====
-- pkg/brainapi/transport.go: Client.do and evaluate, the loop and the policy that every endpoint
-- goes through. `Login` and `Do` tie the knot between do and Login.
pub mod Request
pub mod Decision
pub mod Envelope
pub mod Evaluate
pub mod Cases
pub mod Perform
pub mod Rounds
pub mod Login
pub mod Do
pub mod Termination
pub mod Rule
pub mod Steps
pub mod Reach
pub mod Requests
pub mod Trace
pub mod Asked
pub mod Responses
pub mod Depth
pub mod Credentials
