-- ===== src/Io/Queue/Window.antt =====
-- What a queued input of include/atp/io/queued_input.hpp holds after writes that nobody reads.
use ani_tools_platform.Prelude.{
  ℕ, suc, ◌-◌, ◌≤◌, ◌<◌, ◌⊎◌, ◌≡◌, refl, sym, ap, ◌∙◌, Bool, List, [], ◌∷◌, ◌++◌, map, arith,
  append_assoc, append-nil, inl, inr, length, length-append, take, take_whole, take-append, drop,
  ok,
}
use ani_tools_platform.Io.Input.{
  QueuedInput, OverflowPolicy, drop_oldest, drop_incoming, when_full, make_queued, write_queued,
}
use ani_tools_platform.Io.Queue.Accounts.{length-when_full}
use ani_tools_platform.Io.Queue.{write, step, run}

module _ {A : Type 0} where
  -- The part of a stream that a policy keeps: the latest values, or the first ones.
  pub window : OverflowPolicy → ℕ → List A → List A
  window drop_oldest c xs = drop (length xs - c) xs
  window drop_incoming c xs = take c xs

  drop-zero_of_le : (c : ℕ) (xs : List A) → length xs ≤ c → drop (length xs - c) xs ≡ xs
  drop-zero_of_le c xs h = let e : length xs - c ≡ 0 = omega arith in rw e refl

  window-short : (p : OverflowPolicy) (c : ℕ) (xs : List A) → length xs ≤ c → window p c xs ≡ xs
  unfolding window
  window-short drop_oldest c xs h = drop-zero_of_le c xs h
  window-short drop_incoming c xs h = take_whole c xs h

  -- A store into a full queue keeps the window of everything that comes after.
  window-when_full :
      (p : OverflowPolicy) (c : ℕ) (q : List A) (x : A) (xs : List A)
      → length q ≡ c
      → 0 < c
      → window p c (when_full p x q ++ xs) ≡ window p c (q ++ x ∷ xs)
  unfolding window
  window-when_full drop_oldest c [] x xs e h = absurd (omega arith)
  window-when_full drop_oldest c (b ∷ q) x xs e h = rw (append_assoc q (x ∷ []) xs) (
      let more : suc (length (q ++ x ∷ xs)) - c ≡ suc (length (q ++ x ∷ xs) - c) =
        omega (arith, length-append q (x ∷ xs)) in
      rw more refl)
  window-when_full drop_incoming c q x xs e h =
      take-append c q xs (omega arith) ∙ sym (take-append c q (x ∷ xs) (omega arith))

  write-queue :
      (a : A) (i : QueuedInput A)
      → ((length i.queue < i.capacity) × ((write_queued a i).queue ≡ i.queue ++ a ∷ []))
        ⊎ ((i.capacity ≤ length i.queue)
            × ((write_queued a i).queue ≡ when_full i.policy a i.queue))
  unfolding write_queued
  write-queue a i = ground arith

  write-config :
      (a : A) (i : QueuedInput A)
      → ((write_queued a i).capacity ≡ i.capacity) × ((write_queued a i).policy ≡ i.policy)
  unfolding write_queued
  write-config a i = ground arith

  write-window :
      (p : OverflowPolicy) (c : ℕ) (x : A) (xs : List A) (i : QueuedInput A)
      → 0 < c
      → i.policy ≡ p
      → i.capacity ≡ c
      → length i.queue ≤ c
      → (length (write_queued x i).queue ≤ c)
        × (window p c ((write_queued x i).queue ++ xs) ≡ window p c (i.queue ++ x ∷ xs))
  write-window p c x xs i h ep ec fits = elim (write-queue x i) [
    | inl (room, e) ↦ rw e (
      omega (arith, length-append i.queue (x ∷ [])),
      ap (window p c) (append_assoc i.queue (x ∷ []) xs),
    )
    | inr (full, e) ↦
        rw (e, ep)
          (
            omega (arith, length-when_full p x i.queue),
            window-when_full p c i.queue x xs (omega arith) h,
          )
  ]

  run_writes :
      (p : OverflowPolicy) (c : ℕ) (xs : List A) (i : QueuedInput A)
      → 0 < c
      → i.policy ≡ p
      → i.capacity ≡ c
      → length i.queue ≤ c
      → (run (map write xs) i).0.queue ≡ window p c (i.queue ++ xs)
  unfolding run step
  run_writes p c [] i h ep ec fits = rw append-nil (sym (window-short p c i.queue fits))
  run_writes p c (x ∷ xs) i h ep ec fits =
      let (fits', same) = write-window p c x xs i h ep ec fits in
      let (ec', ep') = write-config x i in
      run_writes p c xs (write_queued x i) h (ep' ∙ ep) (ec' ∙ ec) fits' ∙ same

  make_queued-config :
      (safe : Bool) (c : ℕ) (p : OverflowPolicy) {i : QueuedInput A}
      → make_queued safe c p ≡ ok i
      → (0 < c) × (i.policy ≡ p) × (i.capacity ≡ c) × (i.queue ≡ [])
  unfolding make_queued
  make_queued-config safe c p e = ground arith

  -- A queued input that was just made and written to without a read holds exactly the last
  -- `capacity` values under `drop_oldest`, and exactly the first `capacity` values under
  -- `drop_incoming`, in the order of writing.
  pub run_writes-make_queued :
      (safe : Bool) (c : ℕ) (p : OverflowPolicy) (xs : List A) (i : QueuedInput A)
      → make_queued safe c p ≡ ok i
      → (run (map write xs) i).0.queue ≡ window p c xs
  run_writes-make_queued safe c p xs i e =
      let (h, ep, ec, none_yet) = make_queued-config safe c p e in
      run_writes p c xs i h ep ec (rw none_yet (omega arith))
      ∙ ap (λ q. window p c (q ++ xs)) none_yet
