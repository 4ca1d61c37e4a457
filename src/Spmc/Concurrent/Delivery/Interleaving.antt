-- ===== src/Spmc/Concurrent/Delivery/Interleaving.antt =====
-- Every interleaving keeps the invariant.
use femtolog.Prelude.{some_inj, ℕ, sym, ap, ◌∙◌}
use femtolog.Ring.{copy_out}
use femtolog.Spmc.Concurrent.{
  checked, copied, System, Step, admit, store, advance_tail, take_ticket, check, deny, take_back,
  copy, advance_commit, Steps, here, then,
}
use femtolog.Spmc.Concurrent.Delivery.{Inv, Within}
use femtolog.Spmc.Concurrent.Delivery.Producing.{admit-Inv, store-Inv, advance_tail-Inv}
use femtolog.Spmc.Concurrent.Delivery.Consuming.{
  take_ticket-Inv, place, phase-Inv, found, copied_out,
}
use femtolog.Spmc.Concurrent.Delivery.Committing.{advance_commit-Inv}

-- Every step by which no consumer asks for more than is there keeps the invariant.
step-Inv : {cap : ℕ} {s t : System} → Inv cap s → Step Within s t → Inv cap t
step-Inv inv (admit src at pos room) = admit-Inv inv src room
step-Inv inv (store src m m' at buffer written) = store-Inv inv src m m' at buffer written
step-Inv inv (advance_tail src at) = advance_tail-Inv inv src at
step-Inv inv (take_ticket n pos there) = take_ticket-Inv inv n pos there
step-Inv inv (check front back ticket n e enough) = phase-Inv inv front back _ e checked tt
step-Inv inv (deny front back ticket n e short) = absurd (found inv front back _ e short)
step-Inv inv (take_back front back ticket n e) = absurd ((place inv front back _ e).fine)
step-Inv inv (copy front back ticket n m out e buffer read) =
    phase-Inv inv front back _ e (copied out) (
      some_inj (
        sym read
        ∙ ap (λ b. copy_out b _ ticket n) (some_inj (sym buffer ∙ inv.allocated))
        ∙ copied_out inv front back _ e))
step-Inv inv (advance_commit front back ticket n out e at) =
    advance_commit-Inv inv front back ticket n out e at

-- In every interleaving of the producer with any number of consumers, none of which asks for more than
-- stands between the head and the tail, the bytes that calls have returned, in the order of their
-- commits, and the bytes in the ring are the bytes sent; each call under way has the bytes from its
-- ticket on to itself, and copies just those. So no byte is lost, doubled, reordered or overwritten
-- before it is read.
pub delivery : {cap : ℕ} {s t : System} → Inv cap s → Steps Within s t → Inv cap t
delivery inv here = inv
delivery inv (then steps step) = step-Inv (delivery inv steps) step
