-- ===== src/HttpServer/Life/Listening.antt =====
-- When a server of internal/httpserver is ready, and that it no longer serves after its shutdown.
use preoomkiller_controller.Common.{
  ◌≡◌, ◌≢◌, refl, sym, String, Bool, true, false, Option, none, some, arith,
}
use mathlib.Core.Path.{subst}
use preoomkiller_controller.Common.Error.{Error}
use preoomkiller_controller.HttpServer.{Texts, Settings, ping_as, configure, start_answer}
use preoomkiller_controller.HttpServer.Life.{
  Starting, tested, configured, started, Serving, absent, spawned, opened, serving, ended, idle,
  returned, System, initial, Step, Reach, here, next,
}

-- What each point of the goroutine says of `Start`, of `s.server` and of `ready`.
abbrev Fits : Serving → Starting → Option Settings → Bool → Type 0
Fits absent st server ready = ready ≡ false
Fits spawned st server ready = (st ≡ started none) × (server ≢ none) × (ready ≡ false)
Fits _ st server ready = (st ≡ started none) × (server ≢ none) × (ready ≡ true)

-- A start that has got as far has written `s.server`.
abbrev HasServer : Starting → Option Settings → Type 0
HasServer configured server = server ≢ none
HasServer _ server = Unit

record IsSound (s : System) : Type 0 where
  fits : Fits s.serving s.starting s.server.server s.server.ready
  has_server : HasServer s.starting s.server.server

unstarted :
    (sv : Serving) (st : Starting) (server : Option Settings) (ready : Bool)
    → Fits sv st server ready
    → st ≢ started none
    → (sv ≡ absent) × (ready ≡ false)
unstarted absent st server ready v h = (refl, v)
unstarted spawned st server ready v h = absurd (h v.0)
unstarted opened st server ready v h = absurd (h v.0)
unstarted serving st server ready v h = absurd (h v.0)
unstarted ended st server ready v h = absurd (h v.0)

listening :
    (sv : Serving) (st : Starting) (server : Option Settings) (ready : Bool)
    → Fits sv st server ready
    → sv ≢ absent
    → (st ≡ started none) × (server ≢ none)
listening absent st server ready v h = absurd (h refl)
listening spawned st server ready (a, b, c) h = (a, b)
listening opened st server ready (a, b, c) h = (a, b)
listening serving st server ready (a, b, c) h = (a, b)
listening ended st server ready (a, b, c) h = (a, b)

-- `Start` moves on while the goroutine is not there.
moves_on :
    (s : System) (st : Starting) (server : Option Settings)
    → IsSound s
    → s.starting ≢ started none
    → Fits s.serving st server s.server.ready
moves_on s st server v h =
    let (a, b) = unstarted s.serving s.starting s.server.server s.server.ready v.fits h in
    subst (λ sv. Fits sv st server s.server.ready) (sym a) b

seen :
    (s : System) (sv : Serving)
    → IsSound s
    → s.serving ≡ sv
    → Fits sv s.starting s.server.server s.server.ready
seen s sv v e = subst (λ x. Fits x s.starting s.server.server s.server.ready) e v.fits

ready-Fits :
    (sv : Serving) (st : Starting) (server : Option Settings) (ready : Bool)
    → Fits sv st server ready
    → ready ≡ true
    → (st ≡ started none) × (sv ≢ absent)
ready-Fits absent st server ready v h = absurd cc
ready-Fits spawned st server ready (a, b, c) h = absurd cc
ready-Fits opened st server ready (a, b, c) h = (a, λ e. cc)
ready-Fits serving st server ready (a, b, c) h = (a, λ e. cc)
ready-Fits ended st server ready (a, b, c) h = (a, λ e. cc)

-- The server is there; the shutdown is not called yet, on its way, or has closed it.
record IsStopping (s : System) : Type 0 where
  there : s.server.server ≢ none
  closed_at_end : (a : Option Error) → s.stopping ≡ returned a → s.closed ≡ true
  begun : s.starting ≡ started none

module _ {texts : Texts} where
  Step-IsSound : {s t : System} → IsSound s → Step texts s t → IsSound t
  Step-IsSound {s} v (Step.skips h k) = record {
    fits = moves_on s (started none) s.server.server v (λ e. cc (e, h));
    has_server = tt;
  }
  Step-IsSound {s} v (Step.tests h k) = record {
    fits = moves_on s tested s.server.server v (λ e. cc (e, h));
    has_server = tt;
  }
  Step-IsSound {s} v (Step.configures h) = record {
    fits = moves_on s configured (configure texts s.server).server v (λ e. cc (e, h));
    has_server = λ e. cc;
  }
  Step-IsSound {s} v (Step.listens h) = record {
    fits =
        let (a, b) =
          unstarted s.serving s.starting s.server.server s.server.ready v.fits (λ e. cc (e, h)) in
        (refl, subst (λ st. HasServer st s.server.server) h v.has_server, b);
    has_server = tt;
  }
  Step-IsSound {s} v (Step.fails_to_listen e h) = record {
    fits = moves_on s (started (start_answer texts (some e))) s.server.server v (λ k. cc (k, h));
    has_server = tt;
  }
  Step-IsSound {s} v (Step.opens h) = record {
    fits = let (a, b, c) = seen s spawned v h in (a, b, refl);
    has_server = v.has_server;
  }
  Step-IsSound {s} v (Step.serves h k) = record {
    fits = seen s opened v h;
    has_server = v.has_server;
  }
  Step-IsSound {s} v (Step.does_not_serve h k) = record {
    fits = seen s opened v h;
    has_server = v.has_server;
  }
  Step-IsSound {s} v (Step.stops_serving h) = record {
    fits = seen s serving v h;
    has_server = v.has_server;
  }
  Step-IsSound v (Step.begins h) = record { fits = v.fits; has_server = v.has_server }
  Step-IsSound v (Step.finds_no_server h k) = record { fits = v.fits; has_server = v.has_server }
  Step-IsSound v (Step.closes server answer h k) = record {
    fits = v.fits;
    has_server = v.has_server;
  }

  Reach-IsSound : {s t : System} → IsSound s → Reach texts s t → IsSound t
  Reach-IsSound v here = v
  Reach-IsSound v (next r st) = Step-IsSound (Reach-IsSound v r) st

  -- In any interleaving, a server whose `Ping` answers nil has listened: its `Start` has returned nil,
  -- and left the goroutine that serves. Before that, `Ping` is an error whatever its context.
  pub pinged_listens :
      (port : String) {s : System} (done first : Bool)
      → Reach texts (initial texts port) s
      → ping_as texts done first s.server ≡ none
      → (s.starting ≡ started none) × (s.serving ≢ absent)
  pinged_listens port {s} done first r h =
      let v = Reach-IsSound (record { fits = refl; has_server = tt }) r in
      ready-Fits s.serving s.starting s.server.server s.server.ready v.fits (ground (arith, h))

  Step-IsStopping : {s t : System} → IsStopping s → Step texts s t → IsStopping t
  Step-IsStopping v (Step.skips h k) = absurd (cc (h, v.begun))
  Step-IsStopping v (Step.tests h k) = absurd (cc (h, v.begun))
  Step-IsStopping v (Step.configures h) = absurd (cc (h, v.begun))
  Step-IsStopping v (Step.listens h) = absurd (cc (h, v.begun))
  Step-IsStopping v (Step.fails_to_listen e h) = absurd (cc (h, v.begun))
  Step-IsStopping v (Step.opens h) = record {
    there = v.there;
    closed_at_end = v.closed_at_end;
    begun = v.begun;
  }
  Step-IsStopping v (Step.serves h k) = record {
    there = v.there;
    closed_at_end = v.closed_at_end;
    begun = v.begun;
  }
  Step-IsStopping v (Step.does_not_serve h k) = record {
    there = v.there;
    closed_at_end = v.closed_at_end;
    begun = v.begun;
  }
  Step-IsStopping v (Step.stops_serving h) = record {
    there = v.there;
    closed_at_end = v.closed_at_end;
    begun = v.begun;
  }
  Step-IsStopping v (Step.begins h) = record {
    there = v.there;
    closed_at_end = λ a e. absurd cc;
    begun = v.begun;
  }
  Step-IsStopping v (Step.finds_no_server h k) = absurd (v.there k)
  Step-IsStopping v (Step.closes server answer h k) = record {
    there = v.there;
    closed_at_end = λ a e. refl;
    begun = v.begun;
  }

  Reach-IsStopping : {s t : System} → IsStopping s → Reach texts s t → IsStopping t
  Reach-IsStopping v here = v
  Reach-IsStopping v (next r st) = Step-IsStopping (Reach-IsStopping v r) st

  -- A closed server stays so, and its goroutine does not go into `Serve` any more.
  Step-closed :
      {s t : System}
      → s.closed ≡ true
      → Step texts s t
      → (t.closed ≡ true) × (t.serving ≡ serving → s.serving ≡ serving)
  Step-closed c (Step.serves h k) = absurd cc
  Step-closed c (Step.listens h) = (c, λ e. absurd cc)
  Step-closed c (Step.opens h) = (c, λ e. absurd cc)
  Step-closed c (Step.does_not_serve h k) = (c, λ e. absurd cc)
  Step-closed c (Step.stops_serving h) = (c, λ e. absurd cc)
  Step-closed c (Step.closes server answer h k) = (refl, λ e. e)
  Step-closed c (Step.skips h k) = (c, λ e. e)
  Step-closed c (Step.tests h k) = (c, λ e. e)
  Step-closed c (Step.configures h) = (c, λ e. e)
  Step-closed c (Step.fails_to_listen e h) = (c, λ k. k)
  Step-closed c (Step.begins h) = (c, λ e. e)
  Step-closed c (Step.finds_no_server h k) = (c, λ e. e)

  Reach-closed :
      {s t : System}
      → s.closed ≡ true
      → Reach texts s t
      → (t.closed ≡ true) × (t.serving ≡ serving → s.serving ≡ serving)
  Reach-closed c here = (c, λ e. e)
  Reach-closed c (next r st) =
      let (a, b) = Reach-closed c r in let (d, e) = Step-closed a st in (d, λ h. b (e h))

  -- A server that listens before its `Shutdown` is called does not escape it: once that `Shutdown` has
  -- returned, whatever it answered, the `http.Server` is closed, and a goroutine that is not in `Serve`
  -- by then never goes into it.
  pub shutdown_closes :
      (port : String) {s t u : System}
      → Reach texts (initial texts port) s
      → s.serving ≢ absent
      → s.stopping ≡ idle
      → Reach texts s t
      → (a : Option Error) → t.stopping ≡ returned a
      → Reach texts t u
      → (u.closed ≡ true) × (u.serving ≡ serving → t.serving ≡ serving)
  shutdown_closes port {s} {t} r h k q a e m =
      Reach-closed ((Reach-IsStopping begin q).closed_at_end a e) m
    where
      begin : IsStopping s
      begin =
          let v = Reach-IsSound (record { fits = refl; has_server = tt }) r in
          let (b, c) = listening s.serving s.starting s.server.server s.server.ready v.fits h in
          record { there = c; closed_at_end = λ x y. absurd (cc (k, y)); begun = b }
