-- ===== src/Io/Output/Delivery.antt =====
-- A write of include/atp/io/output.hpp, input by input.
use ani_tools_platform.Prelude.{
  ℕ, ◌≡◌, refl, sym, List, [], ◌∷◌, ◌++◌, append_assoc, append-nil, Option, arith, ◌==◌,
  if◌then◌else◌, incr64,
}
use ani_tools_platform.Io.Output.{
  Element, Output, World, member, accept, deliver, dispatch, write_output,
}
use ani_tools_platform.Io.Output.Connect.{Distinct, IsWired}
use ani_tools_platform.Io.Queue.{option_list}

-- The notifiers of the targets, in order.
pub notifiers : (ℕ → Option ℕ) → List ℕ → List ℕ
notifiers f [] = []
notifiers f (a ∷ xs) = option_list (f a) ++ notifiers f xs

module _ {A : Type 0} where
  deliver-input :
      (a : ℕ) (v : A) (w : World A) (b : ℕ)
      → (deliver a v w).input b ≡ (if b == a then accept v (w.input b) else w.input b)
  unfolding deliver
  deliver-input a v w b = ground arith

  deliver-fired :
      (a : ℕ) (v : A) (w : World A)
      → ((deliver a v w).fired ≡ w.fired ++ option_list (w.notifier a))
        × ((deliver a v w).notifier ≡ w.notifier)
  unfolding deliver
  deliver-fired a v w = ground (arith, append-nil w.fired)

  dispatch-input :
      (targets : List ℕ) (v : A) (w : World A) (b : ℕ)
      → Distinct targets
      → (dispatch targets v w).input b
        ≡ (if member b targets then accept v (w.input b) else w.input b)
  unfolding dispatch member
  dispatch-input [] v w b d = refl
  dispatch-input (a ∷ xs) v w b d =
      ground (arith, dispatch-input xs v (deliver a v w) b d.1, deliver-input a v w b)

  dispatch-fired :
      (targets : List ℕ) (v : A) (w : World A)
      → (dispatch targets v w).fired ≡ w.fired ++ notifiers w.notifier targets
  unfolding dispatch notifiers
  dispatch-fired [] v w = sym (append-nil w.fired)
  dispatch-fired (a ∷ xs) v w =
      rw
        (
          dispatch-fired xs v (deliver a v w),
          (deliver-fired a v w).0,
          (deliver-fired a v w).1,
          append_assoc,
        )
        refl

  -- A write of a well wired output puts the value once into every subscriber and leaves every other
  -- input as it was; it fires the notifier of each subscriber that has one, in the order of the
  -- subscriptions, and counts one write.
  pub write-delivers :
      (e : ℕ → Element) (o : Output) (v : A) (w : World A)
      → IsWired e o
      → ((b : ℕ)
          → (write_output v o w).1.input b
            ≡ (if member b o.targets then accept v (w.input b) else w.input b))
        × ((write_output v o w).1.fired ≡ w.fired ++ notifiers w.notifier o.targets)
        × ((write_output v o w).0 ≡ record o { writes = incr64 o.writes })
  unfolding write_output
  write-delivers e o v w h =
      (λ b. dispatch-input o.targets v w b h.distinct, dispatch-fired o.targets v w, refl)
