-- ===== src/Simulations.antt =====
-- app/api/v1/simulations.py: the endpoints of simulations. The caller's principal and the request
-- are passed in, once they are authenticated and parsed; the identifiers in the responses are the
-- UUIDs whose texts the code writes. Logging is left out.
pub mod Responses
pub mod Runs
pub mod Admission
pub mod Submission
pub mod Slots
pub mod Pages
pub mod Privacy
pub mod Deletion
pub mod History
pub mod Access
