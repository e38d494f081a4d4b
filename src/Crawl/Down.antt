-- ===== src/Crawl/Down.antt =====
-- When a node that stops answering goes down.
use topdisc_testbed.Base.{
  ℕ, ◌≡◌, ◌+◌, ◌*◌, ◌≤◌, ◌<◌, true, false, List, [], ◌∷◌, arith, refl, ◌∙◌, length,
}
use topdisc_testbed.Crawl.{NodeState, ProbeConfig, reschedule, missed, goes_down, unanswered}

-- A node's state after pings that it does not answer, each with its time and error.
unfoldable pub silent : ProbeConfig → ℕ → NodeState → List (ℕ × ℕ) → NodeState
silent cfg id st [] = st
silent cfg id st ((t, e) ∷ fails) =
    silent cfg id (reschedule cfg (unanswered cfg id st t e).0 t) fails

module _ (cfg : ProbeConfig) (id : ℕ) where
  unanswered-misses :
      (st : NodeState) (t e : ℕ)
      → ((reschedule cfg (unanswered cfg id st t e).0 t).misses ≡ st.misses + 1)
        × ((reschedule cfg (unanswered cfg id st t e).0 t).last_pong ≡ st.last_pong)
  unfolding reschedule unanswered missed
  unanswered-misses st t e = ground arith

  unanswered-up :
      (st : NodeState) (t e : ℕ)
      → st.up ≡ true
      → st.misses + 1 < cfg.misses
      → (reschedule cfg (unanswered cfg id st t e).0 t).up ≡ true
  unfolding reschedule unanswered missed goes_down
  unanswered-up st t e u h = ground arith

  silent-misses :
      (st : NodeState) (fails : List (ℕ × ℕ))
      → ((silent cfg id st fails).misses ≡ st.misses + length fails)
        × ((silent cfg id st fails).last_pong ≡ st.last_pong)
  unfolding silent
  silent-misses st [] = (omega arith, refl)
  silent-misses st ((t, e) ∷ fails) =
      let (m, l) = silent-misses (reschedule cfg (unanswered cfg id st t e).0 t) fails in
      let step : ((reschedule cfg (unanswered cfg id st t e).0 t).misses ≡ st.misses + 1)
          × ((reschedule cfg (unanswered cfg id st t e).0 t).last_pong ≡ st.last_pong) =
        unanswered-misses st t e in
      (omega (arith, m, step.0), l ∙ step.1)

  silent-up :
      (st : NodeState) (fails : List (ℕ × ℕ))
      → st.up ≡ true
      → st.misses + length fails < cfg.misses
      → (silent cfg id st fails).up ≡ true
  unfolding silent
  silent-up st [] u h = u
  silent-up st ((t, e) ∷ fails) u h =
      silent-up (reschedule cfg (unanswered cfg id st t e).0 t) fails
        (unanswered-up st t e u (omega arith)) (omega (arith, unanswered-misses st t e))

  -- A node that is up and stops answering is up until `misses` pings in a row went unanswered; it is
  -- down by the first of the later ones that fails two probe periods or more after the last answer.
  pub silent_goes_down :
      (st : NodeState) (fails : List (ℕ × ℕ)) (t e : ℕ)
      → st.up ≡ true
      → (st.misses + length fails < cfg.misses → (silent cfg id st fails).up ≡ true)
        × (cfg.misses ≤ st.misses + length fails + 1
            → st.last_pong + 2 * cfg.probe ≤ t
            → (unanswered cfg id (silent cfg id st fails) t e).0.up ≡ false)
  unfolding unanswered missed goes_down
  silent_goes_down st fails t e u =
      (silent-up st fails u, λ m l. ground (arith, silent-misses st fails))
