-- ===== src/EventStream/WebSocket/Reconnects.antt =====
-- What a stream does once it has dropped, and once it is closed.
use platform_ts.Retry.Backoff.{backoff_delay_bounds, random_unit}
use platform_ts.EventStream.Emitter.{
  connecting, opened, Notice, open_notice, error_notice, heartbeat_timeout, is_closed, has_id,
  arm_heartbeat,
}
use platform_ts.EventStream.WebSocket.{
  WebSocket, Options, is_clean_close, connect_call, socket_open, socket_close, timer_fires,
  alarm_fires, connect, on_socket_open, on_socket_close, on_heartbeat_timeout, on_timer, ring, step,
}
use platform_ts.EventStream.WebSocket.Lifecycle.{IsValid}
use platform_ts.Prelude.{
  ℕ, ◌*◌, ◌^◌, ◌≤◌, ◌<◌, min, ◌≡◌, true, false, Option, [], ◌∷◌, arith, length,
}

module _ (o : Options) (random : ℕ → ℕ) (react : Notice → WebSocket → WebSocket) where
  -- If a valid stream reconnects, a socket of it that its peer closes other than cleanly is let go and
  -- replaced: the stream is connecting with a reconnect timer and no socket until the timer fires, and
  -- with a new socket alone then; once that is open, the handlers are told of a stream that is open
  -- on that socket alone, with no timer and its attempts counted from zero. The timer's delay is at
  -- most the doubled base delay and the maximum, if the jitter is at most the whole and the random
  -- numbers are below one. Nothing else happens between these events.
  pub drop_recovers :
      (s : ℕ) (code : Option ℕ) (e : WebSocket)
      → IsValid e
      → o.reconnect ≡ true
      → is_clean_close code ≡ false
      → has_id s e.transport.attached ≡ true
      → o.jitter ≤ o.jitter_unit
      → 0 < o.jitter_unit
      → ((i : ℕ) → random i < random_unit)
      → let c = e.transport in
        let dropped = step o random react (socket_close s code) e in
        let retried = step o random react (timer_fires c.next_timer) dropped in
        (dropped.state ≡ connecting)
        × (dropped.transport.attached ≡ [])
        × (dropped.transport.timers ≡ c.next_timer ∷ [])
        × (dropped.transport.delay_ms
            ≤ min (o.base_delay_ms * 2 ^ c.reconnect_attempts) o.max_delay_ms)
        × (retried.state ≡ connecting)
        × (retried.transport.attached ≡ c.next_socket ∷ [])
        × ((r : WebSocket) × (step o random react (socket_open c.next_socket) retried
              ≡ react open_notice r)
            × (r.state ≡ opened)
            × (r.transport.attached ≡ c.next_socket ∷ [])
            × (r.transport.timers ≡ [])
            × (r.transport.reconnect_attempts ≡ 0))
  unfolding step on_socket_close on_timer on_socket_open arm_heartbeat
  drop_recovers s code e v r c h j u d =
      let bounds =
        backoff_delay_bounds
          (record {
            max_attempts = 0;
            base_delay_ms = o.base_delay_ms;
            max_delay_ms = o.max_delay_ms;
            jitter = o.jitter;
            jitter_unit = o.jitter_unit;
            max_elapsed_ms = 0;
          })
          e.transport.reconnect_attempts (random e.transport.next_timer) j u
          (d e.transport.next_timer) in
      let dropped = step o random react (socket_close s code) e in
      let retried = step o random react (timer_fires e.transport.next_timer) dropped in
      let reopened : WebSocket = record retried {
        state = opened;
        transport = record retried.transport { reconnect_attempts = 0 };
      } in
      (
        ground arith,
        ground arith,
        ground arith,
        ground (arith, bounds.0),
        ground arith,
        ground arith,
        (
          arm_heartbeat o.heartbeat_timeout_ms react reopened,
          ground arith,
          ground arith,
          ground arith,
          ground arith,
          ground arith,
        ),
      )

  -- If a handler that is told of a missing heartbeat closes the stream, a reconnect timer is set all
  -- the same; if the user connects the stream again before it fires, the stream's handlers are on
  -- two sockets then.
  pub late_close_doubles :
      (a : ℕ) (e : WebSocket)
      → let rung = ring o random react a e in
        let told = react (error_notice heartbeat_timeout) rung in
        has_id a e.alarms ≡ true
        → o.reconnect ≡ true
        → IsValid told
        → is_closed told.state ≡ true
        → let t = told.transport.next_timer in
          let late = step o random react (alarm_fires a) e in
          (is_closed late.state ≡ true)
          × (late.transport.timers ≡ t ∷ [])
          × (length
                (step o random react
                  (timer_fires t)
                  (step o random react connect_call late)).transport.attached
              ≡ 2)
  unfolding step on_heartbeat_timeout connect on_timer
  late_close_doubles a e h r v c = ground (arith, h, r, c)
