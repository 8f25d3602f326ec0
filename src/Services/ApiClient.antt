-- ===== src/Services/ApiClient.antt =====
-- services/api_client.rs: an operation and its arguments turned into one HTTP request, sent with
-- retries inside the rate limiter and the circuit breaker.
pub mod Params
pub mod Dispatch
pub mod Execute
