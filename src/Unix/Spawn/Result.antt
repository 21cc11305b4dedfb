-- ===== src/Unix/Spawn/Result.antt =====
-- The two ways in which `expty_spawn` (c_src/unix/pty.cpp) can end, and the invariant of the NIF.
use ex_pty.Prelude.{
  ℕ, ◌≡◌, refl, some, List, map, ◌⊎◌, inl, inr, arith, pos, ap, ◌∙◌, Bool-cases, c_str, ◌∷◌, ◌++◌,
  append_assoc, true,
}
use native.Mathlib.Decide.{ℕ_discrete}
use ex_pty.Enif.{Enif}
use ex_pty.Unix.Termios.{Platform}
use ex_pty.Unix.Sys.{Event, Kernel, Sys, Outcome, returned, undefined, running, log}
use ex_pty.Unix.History.{children}
use ex_pty.Unix.Spawn.Args.{SpawnArgs}
use ex_pty.Unix.Spawn.Jump.{at_done}
use ex_pty.Unix.Spawn.Run.{
  cleanup, open_terminal, launch, hand_over, spawn_body, Decimal, spawn_with,
}
use ex_pty.Unix.Spawn.Early.{fails_early, open_terminal-fails_early}
use ex_pty.Unix.Spawn.Registered.{
  open_terminal-Same, open_terminal-later, open_terminal-children, launch-children,
  hand_over-children, Jump-cases, Same, SameBut, Registered, launch-Same, launch-allocated,
  hand_over_done, hand_over_next, hand_over-reply,
}

-- `enif_alloc_resource` gives the resource `i` at some time from the state on.
abbrev pub IsAllocated : Kernel → Sys → ℕ → Type 0
IsAllocated k s i = (new : List Event) × (k.alloc_resource (new ++ s.trace) ≡ some i)

-- No table of the NIF has changed, and no resource that is not newly allocated.
pub record Unchanged (k : Kernel) (s s' : Sys) : Type 0 where
  pub processes : s'.processes ≡ s.processes
  pub batons : s'.batons ≡ s.batons
  pub next_baton : s'.next_baton ≡ s.next_baton
  pub others : (i : ℕ) → (s'.sockets i ≡ s.sockets i) ⊎ IsAllocated k s i

-- One child was started, `pid`. It is registered, and `t` names its resource and its pid.
pub record Started (e : Enif) (k : Kernel) (s s' : Sys) (t : e.Term) (socket process pid : ℕ)
    : Type 0 where
  pub allocated : IsAllocated k s socket
  pub child : children s'.trace ≡ pid ∷ children s.trace
  pub registered : Registered socket process pid s s'
  pub tty : e.Term
  pub reply : t ≡ e.make_tuple3 (e.make_resource socket) (e.make_int (pos pid)) tty

abbrev pub Settled : (e : Enif) → Kernel → Sys → e.Term → Sys → Type 0
Settled e k s t s' =
    Unchanged k s s'
    ⊎ ((socket : ℕ) × (process : ℕ) × (pid : ℕ) × Started e k s s' t socket process pid)

abbrev pub Ending : (e : Enif) → Platform → Kernel → SpawnArgs → Sys → Outcome e.Term → Type 0
Ending e p k a s (returned t s') = Settled e k s t s'
Ending e p k a s undefined = fails_early p k a s ≡ true
Ending e p k a s running = ⊥

module _ (e : Enif) (p : Platform) (k : Kernel) where
  Same→Unchanged : {s s' : Sys} → Same s s' → Unchanged k s s'
  Same→Unchanged q = record {
    processes = q.processes;
    batons = q.batons;
    next_baton = q.next_baton;
    others = λ i. inl (ground arith);
  }

  Same-trans : {s s1 s2 : Sys} → Same s s1 → Same s1 s2 → Same s s2
  Same-trans q r = record {
    processes = ground arith;
    batons = ground arith;
    next_baton = ground arith;
    others = ground arith;
  }

  IsAllocated-since :
      (s s1 : Sys) (i : ℕ)
      → (new : List Event) × (s1.trace ≡ new ++ s.trace)
      → IsAllocated k s1 i
      → IsAllocated k s i
  IsAllocated-since s s1 i (new, later) (newer, al) =
      (newer ++ new, rw (append_assoc newer new s.trace, ← later) al)

  stopped-Unchanged :
      (socket : ℕ) {s s1 s2 : Sys}
      → Same s s1
      → IsAllocated k s socket
      → SameBut socket s1 s2
      → Unchanged k s s2
  stopped-Unchanged socket q al r = record {
    processes = ground arith;
    batons = ground arith;
    next_baton = ground arith;
    others = λ i. elim (ℕ_discrete socket i) [
      | yes same ↦ inr (al.0, rw (← same) al.1)
      | no differ ↦ inl (r.others i differ ∙ ap (λ f. f i) q.others)
    ];
  }

  from_Same :
      (socket process pid : ℕ) {s s1 s2 : Sys}
      → Same s s1
      → Registered socket process pid s1 s2
      → Registered socket process pid s s2
  from_Same socket process pid q r = record {
    processes = ground arith;
    baton = ground arith;
    others = λ i ne. r.others i ne ∙ ap (λ f. f i) q.others;
    batons = r.batons ∙ rw (q.batons, q.next_baton);
    next_baton = ground arith;
  }

  body-Settled :
      (a : SpawnArgs) (argv envp : List (List ℕ)) (o : ℕ × ℕ × ℕ × ℕ) (s s1 : Sys)
      → Same s s1
      → children s1.trace ≡ children s.trace
      → (new : List Event) × (s1.trace ≡ new ++ s.trace)
      → let r = at_done (spawn_body e p k a argv envp o s1) in Settled e k s r.0 r.1
  unfolding spawn_body
  body-Settled a argv envp o s s1 before kids later =
      let same = launch-Same e p k a argv envp o s1 in
      elim (Jump-cases (launch e p k a argv envp o s1)) [
        | inr (t, s2, e1) ↦
            rw (e1, at_done) (inl (Same→Unchanged (Same-trans before (rw e1 at same))))
        | inl (c, s2, e1) ↦
            let al =
              IsAllocated-since s s1 c.1 later (launch-allocated e p k a argv envp o s1 e1) in
            let q : Same s s2 = Same-trans before (rw e1 at same) in
            elim (Jump-cases (hand_over e p k c.0 c.1 c.2 c.3 s2)) [
              | inr (t, s3, e2) ↦
                  rw (e1, e2, at_done)
                    (inl (stopped-Unchanged c.1 q al (hand_over_done e p k c.0 c.1 c.2 c.3 s2 e2)))
              | inl (t, s3, e2) ↦
                  let (tty, reply) = hand_over-reply e p k c.0 c.1 c.2 c.3 s2 e2 in
                  rw (e1, e2, at_done)
                    (inr (
                      c.1,
                      c.2,
                      c.3,
                      record {
                        allocated = al;
                        child =
                            (rw e2 at (hand_over-children e p k c.0 c.1 c.2 c.3 s2))
                            ∙ launch-children e p k a argv envp o s1 e1
                            ∙ ap (◌∷◌ c.3) kids;
                        registered =
                            from_Same c.1 c.2 c.3 q (hand_over_next e p k c.0 c.1 c.2 c.3 s2 e2);
                        tty = tty;
                        reply = reply;
                      },
                    ))
            ]
      ]

  -- The cleanup changes no table, and starts no child.
  cleanup-Settled :
      (argv envp : List (List ℕ)) (s : Sys) (t : e.Term) (s' : Sys)
      → Settled e k s t s'
      → Settled e k s t (cleanup argv envp s')
  unfolding cleanup log
  cleanup-Settled argv envp s t s' (inl u) = inl (record {
    processes = u.processes;
    batons = u.batons;
    next_baton = u.next_baton;
    others = u.others;
  })
  cleanup-Settled argv envp s t s' (inr (socket, process, pid, st)) = inr (
    socket,
    process,
    pid,
    record {
      allocated = st.allocated;
      child = st.child;
      registered = record {
        processes = st.registered.processes;
        baton = st.registered.baton;
        others = st.registered.others;
        batons = st.registered.batons;
        next_baton = st.registered.next_baton;
      };
      tty = st.tty;
      reply = st.reply;
    },
  )

  same-Unchanged : (s : Sys) → Unchanged k s s
  same-Unchanged s = record {
    processes = refl;
    batons = refl;
    next_baton = refl;
    others = λ i. inl refl;
  }

  module _ (d : Decimal) where
    -- A run that does not fail too early returns. It has either started one child, registered it under a
    -- baton that is new, and replies with the child's resource and its pid, the one that `posix_spawn`
    -- gave; or it has changed no table of the NIF, and no resource but one that it has allocated.
    pub spawn_with-Ending : (a : SpawnArgs) (s : Sys) → Ending e p k a s (spawn_with e d p k a s)
    unfolding spawn_with
    spawn_with-Ending a s = elim (Bool-cases (k.new_envs s.trace)) [
      | inr e0 ↦ rw (e0, spawn_with) (inl (same-Unchanged s))
      | inl e0 ↦ elim (Bool-cases (k.new_argv s.trace)) [
        | inr e1 ↦ rw (e0, e1, spawn_with) (ground (arith, e0, e1))
        | inl e1 ↦ elim (Jump-cases (open_terminal e p k a s)) [
          | inr (t, s1, e2) ↦
              let early = open_terminal-fails_early e p k a s e0 e2 in
              rw (e0, e1, e2, spawn_with) (ground (arith, early))
          | inl (o, s1, e2) ↦
              rw (e0, e1, e2, spawn_with)
                (cleanup-Settled _ (map c_str a.envs) s _ _ (
                  body-Settled a _ (map c_str a.envs) o s s1
                    (rw e2 at (open_terminal-Same e p k a s))
                    (rw e2 at (open_terminal-children e p k a s))
                    (open_terminal-later e p k a s e2)))
        ]
      ]
    ]
