-- ===== src/MetricsServer.antt =====
-- internal/metrics/server.go: `Serve`, with the goroutine that runs the HTTP server. The server and the
-- context are what happens to it: steps that it does not choose.
pub mod Ending
use nats_jwt_callout.Base.{
  Bool, true, false, Option, none, some, Str, codes, is_empty, if◌then◌else◌, ◌≡◌,
}

abbrev pub default_path : Str
default_path = codes "/metrics"

-- The path that the handler is registered at.
unfoldable pub path_of : Str → Str
path_of path = if is_empty path then default_path else path

-- An error of the HTTP server other than http.ErrServerClosed is an `Error`.
module _ (Error : Type 0) where
  -- `serving`: the goroutine is in `srv.Serve`. `err_ch` has room for one error. `shut_down`:
  -- `srv.Shutdown` has been called. `result` is what `Serve` has returned: nil is `some none`.
  pub record Serving : Type 0 where
    pub ctx_done : Bool
    pub serving : Bool
    pub err_ch : Option Error
    pub shut_down : Bool
    pub result : Option (Option Error)

  abbrev pub initial : Serving
  initial = record {
    ctx_done = false;
    serving = true;
    err_ch = none;
    shut_down = false;
    result = none;
  }

  pub data Move (s : Serving) : Serving → Type 0 where
    -- The context is cancelled.
    cancelled : Move s (record s { ctx_done = true })
    -- `srv.Serve` fails, and the goroutine sends the error; it waits where the channel is full.
    failed :
        (e : Error)
        → s.serving ≡ true
        → s.err_ch ≡ none
        → Move s (record s { serving = false; err_ch = some e })
    -- `srv.Serve` returns http.ErrServerClosed.
    closed : s.serving ≡ true → s.shut_down ≡ true → Move s (record s { serving = false })
    -- The two cases of the `select`.
    done_case :
        (shutdown : Option Error)
        → s.result ≡ none
        → s.ctx_done ≡ true
        → Move s (record s { shut_down = true; result = some shutdown })
    error_case :
        (e : Error)
        → s.result ≡ none
        → s.err_ch ≡ some e
        → Move s (record s { err_ch = none; result = some (some e) })

  pub data Reached : Serving → Type 0 where
    begins : Reached initial
    later : {s t : Serving} → Reached s → Move s t → Reached t
