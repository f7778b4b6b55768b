-- ===== src/Controller/Reconcile/Acts.antt =====
-- The commands that a part of a reconciliation of service.go sends, counted and by the pods that they
-- are about.
use preoomkiller_controller.Common.{
  ℕ, ◌+◌, ◌≤◌, ◌≡◌, refl, ◌⊎◌, inl, inr, List, [], ◌∷◌, ◌++◌, append_assoc, arith, length,
  length-append,
}
use preoomkiller_controller.Controller.Platform.{Numbers, Env, Config, Pod}
use preoomkiller_controller.Controller.State.{
  State, Call, evict, annotate, Action, ◌>>=◌, >>=-state,
}

module _ {num : Numbers} (env : Env num) (cfg : Config) where
  open env use {World}
  open num use {Quantity}

  -- A command about this pod: an eviction, or a write under the `restart-at` key.
  abbrev pub About : Pod Quantity → Call → Type 0
  About pod (evict namespace name a) = (namespace ≡ pod.namespace) × (name ≡ pod.name)
  About pod (annotate namespace name key value a) =
      (namespace ≡ pod.namespace) × (name ≡ pod.name) × (key ≡ cfg.annotation_restart_at_key)

  abbrev pub AboutOne : List (Pod Quantity) → Call → Type 0
  AboutOne [] c = ⊥
  AboutOne (pod ∷ pods) c = About pod c ⊎ AboutOne pods c

  abbrev pub AllAbout : List (Pod Quantity) → List Call → Type 0
  AllAbout pods [] = Unit {0}
  AllAbout pods (c ∷ cs) = AboutOne pods c × AllAbout pods cs

  -- From `s` to `t`, at most `n` commands were sent, each about a pod of the list.
  pub record Acts (pods : List (Pod Quantity)) (n : ℕ) (s t : State World) : Type 0 where
    pub sent : List Call
    pub logged : t.calls ≡ sent ++ s.calls
    pub few : length sent ≤ n
    pub about : AllAbout pods sent

  AllAbout-append :
      (pods : List (Pod Quantity)) (cs ds : List Call)
      → AllAbout pods cs
      → AllAbout pods ds
      → AllAbout pods (cs ++ ds)
  AllAbout-append pods [] ds h k = k
  AllAbout-append pods (c ∷ cs) ds h k = (h.0, AllAbout-append pods cs ds h.1 k)

  pub Acts-trans :
      (pods : List (Pod Quantity)) (m n : ℕ) (s t u : State World)
      → Acts pods m s t
      → Acts pods n t u
      → Acts pods (n + m) s u
  Acts-trans pods m n s t u a b = record {
    sent = b.sent ++ a.sent;
    logged = ground (arith, a.logged, b.logged, append_assoc b.sent a.sent s.calls);
    few = omega (arith, length-append b.sent a.sent, a.few, b.few);
    about = AllAbout-append pods b.sent a.sent b.about a.about;
  }

  pub Acts-none :
      (pods : List (Pod Quantity)) (n : ℕ) (s t : State World) → t.calls ≡ s.calls → Acts pods n s t
  Acts-none pods n s t e = record { sent = []; logged = e; few = omega arith; about = tt }

  pub Acts-one :
      (pod : Pod Quantity) (c : Call) (s t : State World)
      → About pod c
      → t.calls ≡ c ∷ s.calls
      → Acts (pod ∷ []) 1 s t
  Acts-one pod c s t h e = record {
    sent = c ∷ [];
    logged = e;
    few = omega arith;
    about = (inl h, tt);
  }

  pub Acts-more :
      (pods : List (Pod Quantity)) (m n : ℕ) (s t : State World)
      → m ≤ n
      → Acts pods m s t
      → Acts pods n s t
  Acts-more pods m n s t h a = record {
    sent = a.sent;
    logged = a.logged;
    few = omega arith;
    about = a.about;
  }

  pub Acts->>= :
      {A B : Type 0} (pods : List (Pod Quantity)) (m n : ℕ) (s : State World)
      (first : Action World A) (rest : A → Action World B)
      → Acts pods m s (first s).1
      → ((a : A) → Acts pods n (first s).1 (rest a (first s).1).1)
      → Acts pods (n + m) s ((first >>= rest) s).1
  Acts->>= pods m n s first rest h k =
      >>=-state (Acts pods (n + m) s) first rest s
        (Acts-more pods m (n + m) s (first s).1 (omega arith) h)
        λ a. Acts-trans pods m n s (first s).1 (rest a (first s).1).1 h (k a)

  -- The commands, newest first, in portions: one for each pod of the list, in its order, each of two
  -- commands at most, all of them about its pod.
  abbrev pub Portions : List (Pod Quantity) → List Call → Type 0
  Portions [] sent = sent ≡ []
  Portions (pod ∷ pods) sent =
      (later mine : List Call) × (sent ≡ later ++ mine)
      × (length mine ≤ 2)
      × AllAbout (pod ∷ []) mine
      × Portions pods later

  Portions-none : (pods : List (Pod Quantity)) → Portions pods []
  Portions-none [] = refl
  Portions-none (pod ∷ pods) = ([], [], refl, omega arith, tt, Portions-none pods)

  -- From `s` to `t`, the pods of the list got their portions of commands in turn.
  pub record InTurn (pods : List (Pod Quantity)) (s t : State World) : Type 0 where
    pub sent : List Call
    pub logged : t.calls ≡ sent ++ s.calls
    pub portions : Portions pods sent

  pub InTurn-none :
      (pods : List (Pod Quantity)) (s t : State World) → t.calls ≡ s.calls → InTurn pods s t
  InTurn-none pods s t e = record { sent = []; logged = e; portions = Portions-none pods }

  pub InTurn-first :
      (pod : Pod Quantity) (pods : List (Pod Quantity)) (s t : State World)
      → Acts (pod ∷ []) 2 s t
      → InTurn (pod ∷ pods) s t
  InTurn-first pod pods s t a = record {
    sent = a.sent;
    logged = a.logged;
    portions = ([], a.sent, refl, a.few, a.about, Portions-none pods);
  }

  pub InTurn-next :
      (pod : Pod Quantity) (pods : List (Pod Quantity)) (s t u : State World)
      → Acts (pod ∷ []) 2 s t
      → InTurn pods t u
      → InTurn (pod ∷ pods) s u
  InTurn-next pod pods s t u a b = record {
    sent = b.sent ++ a.sent;
    logged = ground (arith, a.logged, b.logged, append_assoc b.sent a.sent s.calls);
    portions = (b.sent, a.sent, refl, a.few, a.about, b.portions);
  }

  -- The clock of the world does not matter.
  pub InTurn-world :
      (pods : List (Pod Quantity)) (w : World) (s t : State World)
      → InTurn pods (record s { world = w }) t
      → InTurn pods s t
  InTurn-world pods w s t a = record { sent = a.sent; logged = a.logged; portions = a.portions }
