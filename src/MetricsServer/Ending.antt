-- ===== src/MetricsServer/Ending.antt =====
-- internal/metrics/server.go: when `Serve` returns, and what.
use nats_jwt_callout.Base.{
  ◌≡◌, ◌≢◌, ◌⊎◌, inl, inr, refl, true, false, none, some, arith, Bool-cases,
}
use nats_jwt_callout.MetricsServer.{
  Serving, Move, cancelled, failed, closed, done_case, error_case, Reached, begins, later,
}

module _ (Error : Type 0) where
  record Invariant (s : Serving Error) : Type 0 where
    can_send : s.serving ≡ true → s.err_ch ≡ none
    shut_down_by : s.shut_down ≡ true → s.ctx_done ≡ true
    shut_down_last : s.shut_down ≡ true → s.result ≢ none
    returned_by : s.result ≢ none → (s.ctx_done ≡ true) ⊎ (s.serving ≡ false)
    nil_by : s.result ≡ some none → s.ctx_done ≡ true
    waiting : s.result ≡ none → (s.serving ≡ true) ⊎ ((e : Error) × (s.err_ch ≡ some e))

  stopped : (s : Serving Error) (e : Error) → Invariant s → s.err_ch ≡ some e → s.serving ≡ false
  stopped s e i sent = elim (Bool-cases s.serving) [
    | inl on ↦ let empty = i.can_send on in absurd (cc)
    | inr off ↦ off
  ]

  Move-Invariant : (s t : Serving Error) → Move Error s t → Invariant s → Invariant t
  Move-Invariant s _ cancelled i = record {
    can_send = i.can_send;
    shut_down_by = λ h. refl;
    shut_down_last = i.shut_down_last;
    returned_by = λ h. inl refl;
    nil_by = λ h. refl;
    waiting = i.waiting;
  }
  Move-Invariant s _ (failed e on room) i = record {
    can_send = λ h. absurd (cc);
    shut_down_by = i.shut_down_by;
    shut_down_last = i.shut_down_last;
    returned_by = λ h. inr refl;
    nil_by = i.nil_by;
    waiting = λ h. inr (e, refl);
  }
  Move-Invariant s _ (closed on down) i = record {
    can_send = λ h. absurd (cc);
    shut_down_by = i.shut_down_by;
    shut_down_last = i.shut_down_last;
    returned_by = λ h. inr refl;
    nil_by = i.nil_by;
    waiting = λ h. absurd (i.shut_down_last down h);
  }
  Move-Invariant s _ (done_case shutdown waits done) i = record {
    can_send = i.can_send;
    shut_down_by = λ h. done;
    shut_down_last = λ h e. absurd (cc);
    returned_by = λ h. inl done;
    nil_by = λ h. done;
    waiting = λ h. absurd (cc);
  }
  Move-Invariant s _ (error_case e waits sent) i = record {
    can_send = λ h. refl;
    shut_down_by = i.shut_down_by;
    shut_down_last = λ h e. absurd (cc);
    returned_by = λ h. inr (stopped s e i sent);
    nil_by = λ h. absurd (ground (arith, h));
    waiting = λ h. absurd (cc);
  }

  Reached-Invariant : {s : Serving Error} → Reached Error s → Invariant s
  Reached-Invariant begins = record {
    can_send = λ h. refl;
    shut_down_by = λ h. absurd (cc);
    shut_down_last = λ h. absurd (cc);
    returned_by = λ h. absurd (h refl);
    nil_by = λ h. absurd (cc);
    waiting = λ h. inl refl;
  }
  Reached-Invariant (later {s} {t} r step) = Move-Invariant s t step (Reached-Invariant r)

  pub record IsOrderly (s : Serving Error) : Type 0 where
    pub can_send : s.serving ≡ true → s.err_ch ≡ none
    pub shut_down_by : s.shut_down ≡ true → s.ctx_done ≡ true
    pub returned_by : s.result ≢ none → (s.ctx_done ≡ true) ⊎ (s.serving ≡ false)
    pub nil_by : s.result ≡ some none → s.ctx_done ≡ true
    pub ends :
        s.result ≡ none
        → (s.ctx_done ≡ true) ⊎ (s.serving ≡ false)
        → (t : Serving Error) × Move Error s t × (t.result ≢ none)

  can_end :
      (s : Serving Error)
      → Invariant s
      → s.result ≡ none
      → (s.ctx_done ≡ true) ⊎ (s.serving ≡ false)
      → (t : Serving Error) × Move Error s t × (t.result ≢ none)
  can_end s i waits (inl done) = (_, done_case none waits done, λ e. absurd (cc))
  can_end s i waits (inr off) = elim (i.waiting waits) [
    | inl on ↦ absurd (cc)
    | inr (e, sent) ↦ (_, error_case e waits sent, λ h. absurd (cc))
  ]

  -- The goroutine of `Serve` never waits to send its error. The server is shut down only on
  -- cancellation, `Serve` returns only on cancellation or when the server has stopped, and nil only on
  -- cancellation. It can return as soon as one of the two has happened.
  pub Reached-IsOrderly : {s : Serving Error} → Reached Error s → IsOrderly s
  Reached-IsOrderly {s} r =
      let i = Reached-Invariant r in
      record {
        can_send = i.can_send;
        shut_down_by = i.shut_down_by;
        returned_by = i.returned_by;
        nil_by = i.nil_by;
        ends = can_end s i;
      }
