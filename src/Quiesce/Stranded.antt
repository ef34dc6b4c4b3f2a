-- ===== src/Quiesce/Stranded.antt =====
-- A `Release` whose save-on fails (internal/quiesce/console.go), and what can follow it.
use better_amp_backup.Prelude.{
  Bool, true, false, ◌&&◌, not, ◌≡◌, ◌≢◌, ◌⊎◌, inl, inr, refl, sym, ap, ◌∙◌, arith,
}
use better_amp_backup.Quiesce.{
  Reply, arrives, Watchdog, off, waiting, sending, finished, Phase, quiet, stopping, switching_on,
  World, begin_release, stop_watchdog, send_on, fire, send_rescue,
}
use better_amp_backup.Quiesce.Steps.{accounted, is_off, at}
use better_amp_backup.Quiesce.Saved.{Reaches, Reaches-IsAccounted}

-- What can follow, with any answers of AMP, as long as no new `Quiesce` begins: every step of
-- `Release`, called as often as one likes, and every step of the watchdog.
pub data Follows (start : World) : World → Type 0 where
  here : Follows start start
  released : {w : World} → Follows start w → w.phase ≡ quiet → Follows start (begin_release w)
  stopped :
      {w : World}
      → Follows start w
      → (held : Bool) → w.phase ≡ stopping held
      → w.watchdog ≢ sending
      → Follows start (stop_watchdog held w)
  switched_on :
      {w : World}
      → Follows start w
      → w.phase ≡ switching_on
      → (reply : Reply) → Follows start (send_on reply w)
  fired : {w : World} → Follows start w → w.watchdog ≡ waiting → Follows start (fire w)
  rescued :
      {w : World}
      → Follows start w
      → w.watchdog ≡ sending
      → (reply : Reply) → Follows start (send_rescue reply w)

-- Nobody is left who would send save-on.
record IsStranded (w : World) : Type 0 where
  not_saving : w.saving ≡ false
  not_held : w.held ≡ false
  no_watchdog : w.watchdog ≡ off
  idle : (w.phase ≡ quiet) ⊎ (w.phase ≡ stopping false)

is_off-eq-off : (dog : Watchdog) → is_off dog ≡ true → dog ≡ off
unfolding is_off
is_off-eq-off off h = refl
is_off-eq-off waiting h = absurd (ground arith)
is_off-eq-off sending h = absurd (ground arith)
is_off-eq-off finished h = absurd (ground arith)

off-not-waiting : (dog : Watchdog) → dog ≡ off → dog ≡ waiting → ⊥
off-not-waiting dog e f = let clash : off ≡ waiting = sym e ∙ f in ground arith

off-not-sending : (dog : Watchdog) → dog ≡ off → dog ≡ sending → ⊥
off-not-sending dog e f = let clash : off ≡ sending = sym e ∙ f in ground arith

idle-not-switching_on : (p : Phase) → (p ≡ quiet) ⊎ (p ≡ stopping false) → p ≡ switching_on → ⊥
idle-not-switching_on p (inl e) f = let clash : quiet ≡ switching_on = sym e ∙ f in ground arith
idle-not-switching_on p (inr e) f =
    let clash : stopping false ≡ switching_on = sym e ∙ f in ground arith

idle-stopping :
    (p : Phase) (held : Bool)
    → (p ≡ quiet) ⊎ (p ≡ stopping false)
    → p ≡ stopping held
    → held ≡ false
idle-stopping p held (inl e) f =
    let clash : quiet ≡ stopping held = sym e ∙ f in absurd (ground arith)
idle-stopping p held (inr e) f =
    let same : stopping false ≡ stopping held = sym e ∙ f in ground arith

refused-IsStranded :
    (w : World) (reply : Reply)
    → Reaches w
    → w.phase ≡ switching_on
    → w.saving ≡ false
    → arrives reply ≡ false
    → IsStranded (send_on reply w)
unfolding send_on accounted
refused-IsStranded w reply r e lost fails =
    let free : (not w.held && is_off w.watchdog) ≡ true =
      at w switching_on e (Reaches-IsAccounted w r) in
    record {
      not_saving = rw fails lost;
      not_held = ground arith;
      no_watchdog = is_off-eq-off w.watchdog (ground arith);
      idle = inl refl;
    }

Follows-IsStranded : (start w : World) → IsStranded start → Follows start w → IsStranded w
unfolding begin_release stop_watchdog
Follows-IsStranded start w h here = h
Follows-IsStranded start w h (released {w = v} f e) =
    let s = Follows-IsStranded start v h f in
    record {
      not_saving = s.not_saving;
      not_held = refl;
      no_watchdog = s.no_watchdog;
      idle = inr (ap stopping s.not_held);
    }
Follows-IsStranded start w h (stopped {w = v} f held e ne) =
    let s = Follows-IsStranded start v h f in
    record {
      not_saving = s.not_saving;
      not_held = s.not_held;
      no_watchdog = refl;
      idle = inl (rw (idle-stopping v.phase held s.idle e) refl);
    }
Follows-IsStranded start w h (switched_on {w = v} f e reply) =
    let s = Follows-IsStranded start v h f in absurd (idle-not-switching_on v.phase s.idle e)
Follows-IsStranded start w h (fired {w = v} f e) =
    let s = Follows-IsStranded start v h f in absurd (off-not-waiting v.watchdog s.no_watchdog e)
Follows-IsStranded start w h (rescued {w = v} f e reply) =
    let s = Follows-IsStranded start v h f in absurd (off-not-sending v.watchdog s.no_watchdog e)

-- Where AMP has taken every save-on so far and no failed save-off has arrived, in any order of the
-- steps before: when `Release` comes to its save-on, the server does not save, and that message does
-- not arrive, then, as long as no new `Quiesce` begins, no sequence of further steps of `Release` and
-- of the watchdog turns saving on, whatever AMP answers. After every one of them the server does not
-- save, there is no watchdog, and nobody is about to send save-on, also within a further `Release`.
pub release_strands :
    (w v : World) (reply : Reply)
    → Reaches w
    → w.phase ≡ switching_on
    → w.saving ≡ false
    → arrives reply ≡ false
    → Follows (send_on reply w) v
    → (v.saving ≡ false) × (v.watchdog ≡ off) × (v.phase ≢ switching_on)
release_strands w v reply r e lost fails f =
    let s = Follows-IsStranded (send_on reply w) v (refused-IsStranded w reply r e lost fails) f in
    (s.not_saving, s.no_watchdog, idle-not-switching_on v.phase s.idle)
