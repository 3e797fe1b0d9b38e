-- ===== src/Publish/Tests.antt =====
-- A client whose publishes fail from the second on.
use huma.Base.{
  All, true, pos, arith, ◌≡◌, refl, false, List, [], ◌∷◌, Option, none, some, ◌==◌, if◌then◌else◌,
  length,
}
use huma.Go.Errors.{external}
use huma.Go.Result.{ok}
use huma.Message.{Message, validate, zero_message}
use huma.Amqp.{heart_beat_msg}
use huma.Publisher.{Reply, act}
use huma.Publisher.Progress.{is_finished, drive}
use huma.Publisher.Solo.{Turns, job_of, publish_amqp, call, call_returns}
use huma.Publish.Confirmed.{over, IsSent, batch_publish_sends}
use huma.Config.Tests.{delayed, delayed-IsWellFormed}
use huma.Publish.Delayed.{IsAccepted, IsRouted, publish_with_delay_dlx_ttl-IsRouted}
use huma.Publish.Reuse.{IsPublished, message_after-IsPublished}
use huma.Publish.{
  message_after, publishing_of, publish_with_delay_dlx_ttl, get_delay_queue_name, publish_all,
  Client, publish, batch_publish,
}

abbrev pub client : Client
client = record {
  context = λ _. none;
  now = λ _. 5;
  enable_tracing = false;
  has_span = λ _. false;
  inject = λ _ t. t;
  inject_headers = none;
  publish_amqp = λ l _ _ _. (if length l == 0 then none else some (external 1), l);
  counts_no_success = λ l x k p. refl;
  counts_no_failure = λ l x k p. refl;
}

abbrev two : List (Option Message)
two = some zero_message ∷ some zero_message ∷ []

-- A call that finds a pool of one channel, on which everything succeeds.
abbrev pub fine : Reply
fine = record {
  ctx = none;
  wait_ctx = none;
  pool_is_nil = false;
  is_closed = false;
  channel = ok 7;
  confirm_mode = none;
  close_channel = none;
  receives = true;
  publish = none;
  wait_confirmation = none;
  acknowledged = true;
}

abbrev pub quick : Turns
quick = record {
  pool = λ _. record {
    channels = 4 ∷ [];
    size = 1;
    max_pool_size = pos 1;
    closed = false;
    chan_closed = false;
    locked = false;
    current_pool_size = pos 1;
  };
  replies = λ _. fine ∷ fine ∷ fine ∷ fine ∷ fine ∷ fine ∷ fine ∷ fine ∷ [];
  last = λ _. fine;
  cause = external 1;
}

call_returns_example : is_finished (call quick [] (job_of "" "orders" heart_beat_msg)).0 ≡ true
call_returns_example = call_returns quick [] (job_of "" "orders" heart_beat_msg) 0 (record {
  counted = refl;
  bounded = omega arith;
  exclusive = refl;
  buffered = omega arith;
  same_close = refl;
  calm = refl;
})

batch_publish_sends_example :
    All
      (λ msg.
        IsSent
          (over quick client)
          ""
          "orders"
          msg
          (batch_publish (over quick client) "" "orders" two []).1)
      two
unfolding batch_publish publish_all publish publish_amqp call act drive validate
batch_publish_sends_example = batch_publish_sends quick client "" "orders" two [] refl

publish_with_delay_dlx_ttl-IsRouted_example :
    let o = publish_with_delay_dlx_ttl (over quick client) "orders" (some zero_message) [] in
    IsAccepted (over quick client) (get_delay_queue_name "orders") (some zero_message) [] o.1
    × IsRouted (get_delay_queue_name "orders") delayed
unfolding publish_with_delay_dlx_ttl publish publish_amqp call act drive validate
publish_with_delay_dlx_ttl-IsRouted_example =
    publish_with_delay_dlx_ttl-IsRouted quick client delayed (some zero_message) []
      delayed-IsWellFormed refl refl

abbrev filled : Message
filled = record zero_message { headers = some []; content_type = "text/plain"; timestamp = some 5 }

filled_ok : validate 5 (some zero_message) ≡ ok filled
unfolding validate
filled_ok = refl

message_after-IsPublished_example :
    IsPublished client
      (message_after client (some zero_message) [])
      []
      (publishing_of client [] filled)
message_after-IsPublished_example =
    message_after-IsPublished client (some zero_message) [] [] (publishing_of client [] filled) refl
      (filled, refl, filled_ok, refl) refl refl
