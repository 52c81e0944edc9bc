-- ===== src/Common/Fetched.antt =====
-- What a loop over a Kafka reader gets in one round: an error, a message that does not decode, or an
-- event. Kafka and the JSON decoder are outside.
pub data Fetched (E : Type 0) : Type 0 where
  fetch_error : Fetched E
  bad_message : Fetched E
  event : E → Fetched E
