-- ===== src/Publisher/Overflow.antt =====
-- `int32(maxPoolSize)` of a maximum between 2^31 and 2^32 is not positive, and then the pool never
-- grows.
use huma.Base.{
  ℕ, ◌+◌, ◌≤◌, ◌≡◌, refl, none, List, [], ◌∷◌, pos, ◌≤ℤ◌, int32_of, arith, length, length-append,
  get_elem?, Option-cases, inl, inr,
}
use huma.Pool.{World, Broker, new_publisher_channel_pool}
use huma.Pool.Opening.{opens, Outcome, new_publisher_channel_pool-Outcome}
use huma.Publisher.{Reply, Job, Pc, Goroutine, System, act, step, run, entering, returning}
use huma.Publisher.Accounting.{holds, holds_lock, pcs, without, AllStart, starts_hold_nothing}

-- The counter counts, the maximum is not positive, nobody is about to open a channel, and `n` channels were opened.
record IsCapped (n : ℕ) (w : World) (held locks : ℕ) : Type 0 where
  counted : w.pool.current_pool_size ≡ pos (length w.pool.channels + held)
  capped : w.pool.max_pool_size ≤ℤ pos 0
  idle : locks ≡ 0
  same_close : w.pool.closed ≡ w.pool.chan_closed
  opened_before : opens w.log ≡ n

act-IsCapped :
    (n : ℕ) (r : Reply) (j : Job) (pc : Pc) (w : World) (held locks : ℕ)
    → IsCapped n w (held + holds pc) (locks + holds_lock pc)
    → let (pc', w') = act r j pc w in IsCapped n w' (held + holds pc') (locks + holds_lock pc')
unfolding act
act-IsCapped n r j entering w held locks h = ground arith
act-IsCapped n r j (returning ch e) w held locks h =
    ground (arith, length-append w.pool.channels (ch ∷ []))
act-IsCapped n r j _ w held locks h = ground arith

abbrev AllCapped : ℕ → System → Type 0
AllCapped n s = IsCapped n s.world (pcs holds s.goroutines) (pcs holds_lock s.goroutines)

step-AllCapped : (n : ℕ) (s : System) (c : ℕ × Reply) → AllCapped n s → AllCapped n (step s c)
unfolding step
step-AllCapped n s (i, r) h = elim (Option-cases (get_elem? s.goroutines i)) [
  | inl missing ↦ rw (missing, step) h
  | inr (g, found) ↦
      let (held, held_e, held_k) = without holds s.goroutines i g found in
      let (locks, locks_e, locks_k) = without holds_lock s.goroutines i g found in
      rw (found, step)
        (rw (held_k, locks_k)
          (act-IsCapped n r g.job g.pc s.world held locks (rw (held_e, locks_e) at h)))
]

run-AllCapped :
    (n : ℕ) (s : System) (cs : List (ℕ × Reply)) → AllCapped n s → AllCapped n (run s cs)
unfolding run
run-AllCapped n s [] h = h
run-AllCapped n s (c ∷ cs) h = run-AllCapped n (step s c) cs (step-AllCapped n s c h)

int32_of_large : (n : ℕ) → 2147483648 ≤ n → n ≤ 4294967296 → int32_of (pos n) ≤ℤ pos 0
unfolding int32_of
int32_of_large n h k = ground arith

-- A pool that was made with a maximum between 2^31 and 2^32 never opens a channel beyond the first
-- ones, under any schedule of the goroutines that use it: the maximum that it keeps is not positive.
pub large_maximum_never_opens :
    (b : Broker) (size n : ℕ) (gs : List Goroutine) (cs : List (ℕ × Reply))
    → 2147483648 ≤ n
    → n ≤ 4294967296
    → (new_publisher_channel_pool b size (pos n) []).0 ≡ none
    → AllStart gs
    → let w = (new_publisher_channel_pool b size (pos n) []).1 in
      opens (run (record { world = w; goroutines = gs }) cs).world.log ≡ opens w.log
large_maximum_never_opens b size n gs cs low high built start =
    (run-AllCapped _ _ cs
      (begin (new_publisher_channel_pool-Outcome b size (pos n) []))).opened_before
  where
    begin :
        Outcome [] size size (int32_of (pos n)) (new_publisher_channel_pool b size (pos n) [])
        → AllCapped
            (opens (new_publisher_channel_pool b size (pos n) []).1.log)
            (record { world = (new_publisher_channel_pool b size (pos n) []).1; goroutines = gs })
    begin (inl (refused, _, _)) = absurd (refused built)
    begin (inr (_, f)) =
        let (none_held, none_locked, _) = starts_hold_nothing gs start in
        rw (none_held, none_locked)
          (record {
            counted = ground (arith, f);
            capped = rw f.capped (int32_of_large n low high);
            idle = refl;
            same_close = ground (arith, f);
            opened_before = refl;
          })
