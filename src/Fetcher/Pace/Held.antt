-- ===== src/Fetcher/Pace/Held.antt =====
-- What a refusal of the site does to all workers.
use mathlib.Core.List.{append_assoc}
use itchgrep.Base.{
  ℕ, ◌+◌, ◌%◌, ◌^◌, true, false, ◌==◌, Bool-cases, inl, inr, ◌≤◌, ◌<◌, ◌≡◌, refl, sym, ap, ◌∙◌,
  some, List, [], ◌∷◌, ◌++◌, arith, All, All-append,
}
use itchgrep.Base.Int.{ℤ}
use itchgrep.Fetcher.Pace.{
  RateLimiter, admitted, pause, later, Fleet, Issued, take_slot, issue, Event, wait, ask,
  let_through, refuse, Events, start, next, refusal, refusals,
}

-- The limiter lets nobody through before a time, and its epoch, a uint64, is past another by at
-- least one and at most `most`.
record Held (resume epoch most : ℕ) (l : RateLimiter) : Type 0 where
  paused : resume ≤ l.paused_until
  over : (j : ℕ) × (1 ≤ j) × (j ≤ most) × (l.epoch ≡ (epoch + j) % 2 ^ 64)

pause-Held :
    (resume epoch most now e : ℕ) (d : ℤ) (l : RateLimiter)
    → Held resume epoch most l
    → Held resume epoch (most + 1) (pause now e d l)
unfolding pause
pause-Held resume epoch most now e d l h =
    let (j, least, below, at) = h.over in
    elim (Bool-cases (e == l.epoch)) [
      | inl same ↦ rw same (record {
        paused = let p = h.paused in ground arith;
        over = (j + 1, omega arith, omega arith, ground arith);
      })
      | inr other ↦ rw other (record { paused = h.paused; over = (j, least, omega arith, at) })
    ]

recount :
    {resume epoch most most' : ℕ} {l : RateLimiter}
    → most ≡ most'
    → Held resume epoch most l
    → Held resume epoch most' l
recount q h =
    let (j, least, below, at) = h.over in
    record { paused = h.paused; over = (j, least, omega (arith, q), at) }

same_Held :
    {resume epoch most : ℕ} {l : RateLimiter}
    → Held resume epoch most l
    → Held resume epoch (most + 0) l
same_Held h = recount (omega arith) h

Event-Held :
    {resume epoch most : ℕ} {f g : Fleet} (m : Event f g)
    → Held resume epoch most f.limiter
    → Held resume epoch (most + refusal m) g.limiter
unfolding take_slot issue refusal
Event-Held (wait f t le) h = same_Held h
Event-Held (ask f) h = same_Held (record { paused = h.paused; over = h.over })
Event-Held (let_through f before slot behind e q le ok) h = same_Held h
Event-Held {resume} {epoch} {most} (refuse f e d) h =
    pause-Held resume epoch most f.now e d f.limiter h

-- The workers that one move lets through, all at its time.
record News (resume : ℕ) (f g : Fleet) : Type 0 where
  news : List Issued
  grown : g.issued ≡ news ++ f.issued
  after : All (λ i. resume ≤ i.at) news

admitted_after :
    (resume now epoch most e : ℕ) (l : RateLimiter)
    → Held resume epoch most l
    → admitted now l ≡ some e
    → resume ≤ now
unfolding admitted
admitted_after resume now epoch most e l h ok = let p = h.paused in ground arith

Event-News :
    {resume epoch most : ℕ} {f g : Fleet}
    → Event f g
    → Held resume epoch most f.limiter
    → News resume f g
unfolding take_slot issue
Event-News (wait f t le) h = record { news = []; grown = refl; after = tt }
Event-News (ask f) h = record { news = []; grown = refl; after = tt }
Event-News {resume} {epoch} {most} (let_through f before slot behind e q le ok) h = record {
  news = (record { slot = slot; at = f.now }) ∷ [];
  grown = refl;
  after = (admitted_after resume f.now epoch most e f.limiter h ok, tt);
}
Event-News (refuse f e d) h = record { news = []; grown = refl; after = tt }

record Through (resume epoch most : ℕ) (f g : Fleet) : Type 0 where
  held : Held resume epoch most g.limiter
  sent : News resume f g

Events-Through :
    {resume epoch most : ℕ} {f g : Fleet} (ms : Events f g)
    → Held resume epoch most f.limiter
    → Through resume epoch (most + refusals ms) f g
unfolding refusals
Events-Through start h = record {
  held = same_Held h;
  sent = record { news = []; grown = refl; after = tt };
}
Events-Through {resume} {epoch} {most} (next ms m) h =
    let t = Events-Through ms h in
    let s = Event-News m t.held in
    let a = t.sent in
    let sum : most + refusals ms + refusal m ≡ most + (refusals ms + refusal m) = omega arith in
    record {
      held = recount sum (Event-Held m t.held);
      sent = record {
        news = s.news ++ a.news;
        grown = s.grown ∙ ap (λ is. s.news ++ is) a.grown ∙ sym (append_assoc s.news a.news _);
        after = All-append (λ i. resume ≤ i.at) s.news a.news s.after a.after;
      };
    }

refused-Held :
    (now : ℕ) (d : ℤ) (l : RateLimiter) → Held (later now d) l.epoch 1 (pause now l.epoch d l)
unfolding pause
refused-Held now d l =
    let same : (l.epoch == l.epoch) ≡ true = ground arith in
    rw same (record { paused = ground arith; over = (1, omega arith, omega arith, ground arith) })

echo :
    (resume now e most : ℕ) (d : ℤ) (l : RateLimiter)
    → e < 2 ^ 64
    → most < 2 ^ 64
    → Held resume e most l
    → pause now e d l ≡ l
unfolding pause
echo resume now e most d l h k held =
    let (j, least, below, at) = held.over in
    let other : (e == l.epoch) ≡ false = ground arith in rw other refl

-- After a refusal that is reported under the current epoch, a uint64, whatever follows with fewer
-- than 2 ^ 64 - 1 more reports, acquire lets no worker through before its wait is over, and later
-- reports under that epoch change nothing.
pub pause_holds :
    (f g : Fleet) (d : ℤ)
    (ms : Events (record f { limiter = pause f.now f.limiter.epoch d f.limiter }) g)
    → f.limiter.epoch < 2 ^ 64
    → 1 + refusals ms < 2 ^ 64
    → (news : List Issued) × (g.issued ≡ news ++ f.issued)
      × All (λ i. later f.now d ≤ i.at) news
      × ((d' : ℤ) → pause g.now f.limiter.epoch d' g.limiter ≡ g.limiter)
pause_holds f g d ms small few =
    let t = Events-Through ms (refused-Held f.now d f.limiter) in
    let s = t.sent in
    (
      s.news,
      s.grown,
      s.after,
      λ d'.
          echo (later f.now d) g.now f.limiter.epoch (1 + refusals ms) d' g.limiter small few
            t.held,
    )
