-- ===== src/Queue/Holding.antt =====
-- Lists of workers: what a step of one worker, the end of some and the start of others leave alone.
use ollama_herd.Common.{
  ℕ, zero, suc, ◌+◌, ◌≤◌, ◌≡◌, refl, inl, inr, Bool, true, false, none, some, List, [], ◌∷◌, ◌++◌,
  Text, text_eq, text_eq_iff, mem, arith, Bool-cases, Option-cases, length, any, length-append,
  get_elem?, All,
}
use ollama_herd.Queue.State.{Event, Worker, live, new_worker, spawn, set_worker}
use ollama_herd.Queue.Workers.{is_set, holds, awaited, Below}

module _ (p : Worker → Bool) where
  pub any-set_worker :
      (i : ℕ) (old w : Worker) (ws : List Worker)
      → get_elem? ws i ≡ some old
      → p old ≡ false
      → any p ws ≡ true
      → any p (set_worker i w ws) ≡ true
  any-set_worker i old w [] e n h = cc
  any-set_worker zero old w (v ∷ vs) e n h = ground arith
  any-set_worker (suc i) old w (v ∷ vs) e n h = ground (arith, any-set_worker i old w vs e n)

  pub any-set_worker_self :
      (i : ℕ) (old w : Worker) (ws : List Worker)
      → get_elem? ws i ≡ some old
      → p w ≡ true
      → any p (set_worker i w ws) ≡ true
  any-set_worker_self i old w [] e h = cc
  any-set_worker_self zero old w (v ∷ vs) e h = ground arith
  any-set_worker_self (suc i) old w (v ∷ vs) e h =
      ground (arith, any-set_worker_self i old w vs e h)

  any-append : (ws vs : List Worker) → any p ws ≡ true → any p (ws ++ vs) ≡ true
  any-append [] vs h = cc
  any-append (w ∷ ws) vs h = ground (arith, any-append ws vs)

  pub any-spawn : (n : ℕ) (ws : List Worker) → any p ws ≡ true → any p (spawn n ws) ≡ true
  unfolding spawn
  any-spawn zero ws h = h
  any-spawn (suc n) ws h = any-spawn n (ws ++ new_worker ∷ []) (any-append ws (new_worker ∷ []) h)

pub length-set_worker :
    (i : ℕ) (w : Worker) (ws : List Worker) → length (set_worker i w ws) ≡ length ws
length-set_worker i w [] = refl
length-set_worker zero w (v ∷ vs) = refl
length-set_worker (suc i) w (v ∷ vs) = omega (arith, length-set_worker i w vs)

pub length-spawn : (n : ℕ) (ws : List Worker) → length (spawn n ws) ≡ length ws + n
unfolding spawn
length-spawn zero ws = omega arith
length-spawn (suc n) ws =
    omega (arith, length-spawn n (ws ++ new_worker ∷ []), length-append ws (new_worker ∷ []))

-- A worker that is done waits for nothing.
abbrev pub DoneIdle : List Worker → Type 0
DoneIdle ws = All (λ w. w.done ≡ true → w.awaiting ≡ none) ws

pub set_worker-DoneIdle :
    (i : ℕ) (w : Worker) (ws : List Worker)
    → (w.done ≡ true → w.awaiting ≡ none)
    → DoneIdle ws
    → DoneIdle (set_worker i w ws)
set_worker-DoneIdle i w [] h d = tt
set_worker-DoneIdle zero w (v ∷ vs) h d = (h, d.1)
set_worker-DoneIdle (suc i) w (v ∷ vs) h d = (d.0, set_worker-DoneIdle i w vs h d.1)

append-DoneIdle : (ws : List Worker) → DoneIdle ws → DoneIdle (ws ++ new_worker ∷ [])
append-DoneIdle [] d = (λ h. refl, tt)
append-DoneIdle (w ∷ ws) d = (d.0, append-DoneIdle ws d.1)

pub spawn-DoneIdle : (n : ℕ) (ws : List Worker) → DoneIdle ws → DoneIdle (spawn n ws)
unfolding spawn
spawn-DoneIdle zero ws d = d
spawn-DoneIdle (suc n) ws d = spawn-DoneIdle n (ws ++ new_worker ∷ []) (append-DoneIdle ws d)

pub live-DoneIdle : (ws : List Worker) → DoneIdle ws → DoneIdle (live ws)
live-DoneIdle [] d = tt
live-DoneIdle (w ∷ ws) d = elim (Bool-cases w.done) [
  | inl e ↦ rw e (live-DoneIdle ws d.1)
  | inr e ↦ rw e (λ h. cc, live-DoneIdle ws d.1)
]

-- To drop the workers that are done drops no holder of a slot.
pub any-live :
    (rid : Text) (es : List Event) (ws : List Worker)
    → DoneIdle ws
    → any (holds rid es) (live ws) ≡ any (holds rid es) ws
any-live rid es [] d = refl
any-live rid es (w ∷ ws) d = ground (arith, any-live rid es ws d.1, d.0)

holds-set_event :
    (rid : Text) (e : Event) (es : List Event) (w : Worker)
    → text_eq e.0 rid ≡ false
    → holds rid (e ∷ es) w ≡ holds rid es w
holds-set_event rid e es w n = elim (Option-cases w.awaiting) [
  | inl a ↦ ground arith
  | inr (f, a) ↦ ground (arith, text_eq_iff f.0 rid, text_eq_iff f.0 e.0, text_eq_iff e.0 rid)
]

-- An event that is set for one request wakes no holder of another.
pub any-set_event :
    (rid : Text) (e : Event) (es : List Event) (ws : List Worker)
    → text_eq e.0 rid ≡ false
    → any (holds rid (e ∷ es)) ws ≡ any (holds rid es) ws
any-set_event rid e es [] n = refl
any-set_event rid e es (w ∷ ws) n =
    ground (arith, any-set_event rid e es ws n, holds-set_event rid e es w n)

pub is_set-Below :
    (e : Event) (n : ℕ) (es : List Event) → Below n es → n ≤ e.1 → is_set e es ≡ false
is_set-Below e n [] b h = refl
is_set-Below e n (f ∷ fs) b h = ground (arith, is_set-Below e n fs b.1 h)

pub Below-mono : (n m : ℕ) (es : List Event) → n ≤ m → Below n es → Below m es
Below-mono n m [] h b = tt
Below-mono n m (e ∷ es) h b = (omega arith, Below-mono n m es h b.1)

pub mem-awaited :
    (rid : Text) (es : List Event) (ws : List Worker)
    → any (holds rid es) ws ≡ true
    → mem rid (awaited ws) ≡ true
mem-awaited rid es [] h = cc
mem-awaited rid es (w ∷ ws) h = elim (Option-cases w.awaiting) [
  | inl a ↦ ground (arith, mem-awaited rid es ws)
  | inr (f, a) ↦ ground (arith, mem-awaited rid es ws, text_eq_iff f.0 rid, text_eq_iff rid f.0)
]

pub length-awaited-le : (ws : List Worker) → length (awaited ws) ≤ length ws
length-awaited-le [] = omega arith
length-awaited-le (w ∷ ws) = ground (arith, length-awaited-le ws)
