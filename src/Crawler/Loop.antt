-- ===== src/Crawler/Loop.antt =====
-- rules/int_crawler.go: the loop of `run`, with the pauses between two runs. Each look at the flag gives a
-- new world.
use go_etcd_rules.Base.{
  ℕ, zero, suc, ◌-◌, ◌≤◌, ◌≡◌, refl, ◌∙◌, inl, inr, true, false, Option, none, some, Bool-cases,
  arith,
}
use go_etcd_rules.Crawler.{IntCrawler, crawl}

module _ {S : Type 0} (ic : IntCrawler S) where
  -- The pause of some seconds: a look at the flag after each.
  unfoldable pub pause : ℕ → S → S
  pause zero s = s
  pause (suc seconds) s =
      let (stopping, s') = ic.is_stopping s in
      elim stopping [ true ↦ s' | false ↦ pause seconds s' ]

  -- `run`, for as many rounds as there is fuel, with the seconds that `Generate` gives for each pause.
  unfoldable pub run_crawler : ℕ → (S → ℕ) → S → Option S
  unfolding crawl pause
  run_crawler zero interval s = none
  run_crawler (suc fuel) interval s =
      let (stopping, s') = ic.is_stopping s in
      let crawled = (crawl ic s').1 in
      elim stopping [
        | true ↦ some s'
        | false ↦ run_crawler fuel interval (pause (interval crawled) crawled)
      ]

  -- `left` counts the looks at the flag, at most, until it is up; nothing makes it more.
  pub record ComesUp (left : S → ℕ) : Type 0 where
    pub look_moves : (s : S) → left (ic.is_stopping s).1 ≤ left s - 1
    pub up : (s : S) → left s ≡ 0 → (ic.is_stopping s).0 ≡ true
    pub crawl_keeps : (s : S) → left (crawl ic s).1 ≤ left s

  module _ (left : S → ℕ) (comes : ComesUp left) where
    pause-left : (seconds : ℕ) (s : S) → left (pause seconds s) ≤ left s
    unfolding pause
    pause-left zero s = omega arith
    pause-left (suc seconds) s = elim (Bool-cases (ic.is_stopping s).0) [
      | inl up ↦ rw (pause, up) (omega (arith, comes.look_moves s))
      | inr down ↦
          rw (pause, down)
            (omega (arith, comes.look_moves s, pause-left seconds (ic.is_stopping s).1))
    ]

    run_crawler-leaves :
        (n : ℕ) (interval : S → ℕ) (s : S)
        → (ic.is_stopping s).0 ≡ true
        → run_crawler (suc n) interval s ≡ some (ic.is_stopping s).1
    unfolding run_crawler
    run_crawler-leaves n interval s up = rw (run_crawler, up) refl

    run_crawler-goes_on :
        (n : ℕ) (interval : S → ℕ) (s : S)
        → (ic.is_stopping s).0 ≡ false
        → run_crawler (suc n) interval s
          ≡ run_crawler n interval
              (pause (interval (crawl ic (ic.is_stopping s).1).1) (crawl ic (ic.is_stopping s).1).1)
    unfolding run_crawler
    run_crawler-goes_on n interval s down = rw (run_crawler, down) refl

    -- Where the flag comes up within a number of looks at it, and each look, also in a pause, takes one of
    -- them, the crawler leaves its loop within one round more, at a look that sees the flag.
    pub run_crawler-returns :
        (n : ℕ) (interval : S → ℕ) (s : S)
        → left s ≤ n
        → (last : S) × (run_crawler (suc n) interval s ≡ some (ic.is_stopping last).1)
          × ((ic.is_stopping last).0 ≡ true)
    run_crawler-returns zero interval s h =
        let up = comes.up s (omega (arith, h)) in (s, run_crawler-leaves zero interval s up, up)
    run_crawler-returns (suc n) interval s h = elim (Bool-cases (ic.is_stopping s).0) [
      | inl up ↦ (s, run_crawler-leaves (suc n) interval s up, up)
      | inr down ↦
          let looked = (ic.is_stopping s).1 in
          let crawled = (crawl ic looked).1 in
          let paused = pause (interval crawled) crawled in
          let fewer : left paused ≤ n = omega (
            arith,
            h,
            comes.look_moves s,
            comes.crawl_keeps looked,
            pause-left (interval crawled) crawled,
          ) in
          let (last, returned, up) = run_crawler-returns n interval paused fewer in
          (last, run_crawler-goes_on (suc n) interval s down ∙ returned, up)
    ]
