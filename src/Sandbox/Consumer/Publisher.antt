-- ===== src/Sandbox/Consumer/Publisher.antt =====
-- apps/sandbox/internal/publisher/kafka.go: the writer is bound to the topic of run.started, and a
-- failure goes out through the same writer, under a topic of its own.
use trade_bench.Common.{String, Bool, true, false, Option, none, some, List, [], ◌∷◌, if◌then◌else◌}
use trade_bench.Sandbox.Consumer.{
  RunStartedEvent, ProcessError, Effect, make_dir, remove_dir, docker_call, publish,
  publish_failure, terminate_later, commit,
}

-- `WriteMessages` of kafka-go, with the broker behind it: whether a writer with that topic takes a
-- message with that topic, where the empty topic is one that is not set.
pub record KafkaWriter : Type 0 where
  pub accepts : String → String → Bool

pub data Message : Type 0 where
  -- The topic and the event; of a failure, its submission and error.
  started : String → RunStartedEvent → Message
  failed : String → String → ProcessError → Message

-- `Publish`: the message that goes out, or `none` with an error.
unfoldable pub publish_started : KafkaWriter → String → RunStartedEvent → Option Message
publish_started writer topic event =
    if writer.accepts topic "" then some (started topic event) else none

-- `PublishFailed`.
unfoldable pub publish_failed_event :
    KafkaWriter → String → String → String → ProcessError → Option Message
publish_failed_event writer topic failed_topic submission_id err =
    if writer.accepts topic failed_topic then some (failed failed_topic submission_id err) else none

abbrev pub with_message : Option Message → List Message → List Message
with_message none ms = ms
with_message (some m) ms = m ∷ ms

-- The messages of a worker that go out. Of the announcement the effect says whether it did.
abbrev pub sent : KafkaWriter → String → String → List Effect → List Message
sent writer topic failed_topic [] = []
sent writer topic failed_topic (publish event true ∷ es) =
    with_message (publish_started writer topic event) (sent writer topic failed_topic es)
sent writer topic failed_topic (publish event false ∷ es) = sent writer topic failed_topic es
sent writer topic failed_topic (publish_failure id err ∷ es) =
    with_message (publish_failed_event writer topic failed_topic id err)
      (sent writer topic failed_topic es)
sent writer topic failed_topic (make_dir id ∷ es) = sent writer topic failed_topic es
sent writer topic failed_topic (remove_dir id ∷ es) = sent writer topic failed_topic es
sent writer topic failed_topic (docker_call c ∷ es) = sent writer topic failed_topic es
sent writer topic failed_topic (terminate_later id n ∷ es) = sent writer topic failed_topic es
sent writer topic failed_topic (commit ∷ es) = sent writer topic failed_topic es
