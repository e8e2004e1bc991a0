-- ===== src/Tests/OfStreaming.antt =====
-- A stream through the channel.
use history_chain.Base.{◌+◌, ◌%◌, ◌^◌, [], ◌∷◌, ◌++◌, ◌≡◌, refl, ok, length, true}
use history_chain.Fpsc.Consumer.{consumer_poll, use_readable}
use history_chain.Fpsc.Producer.{producer_poll, fill}
use history_chain.Fpsc.Ringbuf.{
  pending, ready, inner_new, ringbuf_new, clone_handle, wake_reader, wake_writer,
}
use history_chain.Fpsc.Streaming.{
  Reads, Streaming, streaming_new, Streams, starts, produces, consumes, produce_round,
  consume_round, after_produce, after_consume,
}
use history_chain.Fpsc.Streaming.Keeps.{contents, waiting, Streams-kept}

-- A stream of two reads, of which the second is short, through a buffer of two bytes.
abbrev two_reads : Reads
two_reads = ready (ok (1 ∷ 2 ∷ [])) ∷ pending ∷ ready (ok (3 ∷ [])) ∷ ready (ok (4 ∷ [])) ∷ []

abbrev streamed : Streaming
streamed = produce_round (consume_round (produce_round (streaming_new 2 two_reads)))

streamed-Streams : Streams 2 two_reads streamed
unfolding produce_round consume_round after_produce after_consume producer_poll fill ringbuf_new
    clone_handle inner_new wake_reader consumer_poll use_readable wake_writer
streamed-Streams = produces (consumes (produces starts refl) refl) refl

Streams-kept_example :
    (streamed.log ++ (waiting streamed.inner.state streamed.inner.buf ++ contents streamed.stream)
      ≡ contents two_reads)
    × (streamed.p_total
        ≡ (length streamed.log + length (waiting streamed.inner.state streamed.inner.buf)) % 2 ^ 64)
    × (streamed.c_total ≡ length streamed.log % 2 ^ 64)
    × (streamed.c_done ≡ true
        → (waiting streamed.inner.state streamed.inner.buf ≡ [])
          × (streamed.p_total ≡ streamed.c_total)
          × (streamed.log ++ contents streamed.stream ≡ contents two_reads))
Streams-kept_example = Streams-kept two_reads 2 streamed streamed-Streams
