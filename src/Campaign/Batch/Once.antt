-- ===== src/Campaign/Batch/Once.antt =====
-- No recipient is mailed twice, over every sequence of batch jobs.
use nvelope.Campaign.Batch.Deliveries.{
  settled, IsUnsent, others-IsUnsent, send-once, later-IsUnsent,
}
use nvelope.Common.{refl, ◌≡◌, All, ◌≤◌, ◌∙◌, sym}
use nvelope.Common.Action.{ok, err, Action, Result}
use nvelope.Common.Action.Keeps.{Keeps}
use nvelope.Common.Action.Triple.{Triple, Triple-bind, Triple-pure, Post}
use nvelope.Campaign.Domain.{Campaign, Recipient, is_pending}
use nvelope.Campaign.Batch.{
  SendReply, accepted, refused, call_messenger, clock, message, mark_reply, send_one, String,
  Rendering,
}
use nvelope.Common.Calendar.{Time}
use nvelope.Campaign.Recipients.{Mailing, mark, recipient_id_is}
use nvelope.Campaign.Batch.Window.{DistinctIds, mark-DistinctIds}
use nvelope.Campaign.Batch.{Messenger, Permit, List, mark, false, [], ℕ, true, ◌∷◌}

kept-Post : {S E A : Type 0} (R : S → Type 0) (r : Result E A × S) → R r.1 → Post (λ a. R) R r
kept-Post R (ok a, s) h = h
kept-Post R (err e, s) h = h

module _ {S E A : Type 0} {R : S → Type 0} where
  pub Triple-keeps : (m : Action S E A) → Keeps R m → Triple R m (λ a. R) R
  Triple-keeps m k = record { at = λ s h. kept-Post R (m s) (k.at s h) }

module _ {M L : Type 0} (messenger : Messenger M) where
  -- No mark is lost, the rows' ids differ, no pending recipient was mailed, and nobody twice.
  pub record MailedOnce (w : Mailing M L) : Type 0 where
    pub quiet : w.mark_faults ≡ []
    pub distinct : DistinctIds w.recipients
    pub unsent : All (λ r. is_pending r ≡ true → IsUnsent messenger w.messenger r) w.recipients
    pub once : (k : ℕ) → messenger.delivered w.messenger k ≤ 1

  abbrev pub Ready : List Recipient → Mailing M L → Type 0
  Ready rs w = MailedOnce w × All (IsUnsent messenger w.messenger) rs

  -- Between the call of the messenger for `r` and the mark of its row.
  pub record Unmarked (r : Recipient) (rs : List Recipient) (w : Mailing M L) : Type 0 where
    pub quiet : w.mark_faults ≡ []
    pub distinct : DistinctIds w.recipients
    pub others :
        All
          (λ s.
            recipient_id_is r.id s ≡ false → is_pending s ≡ true → IsUnsent messenger w.messenger s)
          w.recipients
    pub once : (k : ℕ) → messenger.delivered w.messenger k ≤ 1
    pub later : All (IsUnsent messenger w.messenger) rs

  pub copy :
      (w v : Mailing M L)
      → v.mark_faults ≡ w.mark_faults
      → v.recipients ≡ w.recipients
      → v.messenger ≡ w.messenger
      → MailedOnce w
      → MailedOnce v
  copy w v q r m h = record {
    quiet = rw q h.quiet;
    distinct = rw r h.distinct;
    unsent = rw r (rw m h.unsent);
    once = λ k. rw m (h.once k);
  }

  pub mark-Triple :
      (r : Recipient) (rs : List Recipient) (f : Recipient → Recipient)
      → ((s : Recipient) → is_pending (f s) ≡ false)
      → ((s : Recipient) → (f s).id ≡ s.id)
      → Triple (Unmarked r rs) (mark r.id f) (λ u. Ready rs) MailedOnce
  unfolding mark
  mark-Triple r rs f settles same = record {
    at = λ w h. rw h.quiet (
      record {
        quiet = refl;
        distinct = mark-DistinctIds r.id f same w.recipients h.distinct;
        unsent =
            settled (λ s. is_pending s ≡ true → IsUnsent messenger w.messenger s) _
              (recipient_id_is r.id) f w.recipients (λ s e k. k e)
              (λ s p. let q = sym p ∙ settles s in cc) h.others;
        once = h.once;
      },
      h.later,
    );
  }

  module _ (allow : L → Permit × L) (rendering : Rendering) where
    -- The message is sent, and its row no longer pending.
    pub send_one-Triple :
        (c : Campaign) (from : String) (r : Recipient) (rs : List Recipient)
        → DistinctIds (r ∷ rs)
        → Triple
            (Ready (r ∷ rs))
            (send_one messenger allow rendering c from r)
            (λ b. Ready rs)
            MailedOnce
    unfolding send_one
    send_one-Triple c from r rs u =
        Triple-bind _ _ (calling) λ reply. Triple-bind _ _ (reading) λ at. marking reply at
      where
        calling :
            Triple
              (Ready (r ∷ rs))
              (call_messenger messenger allow rendering
                (message messenger allow rendering c from r))
              (λ a. Unmarked r rs)
              MailedOnce
        calling = record {
          at = λ w h.
              let o = message messenger allow rendering c from r in
              record {
                quiet = h.0.quiet;
                distinct = h.0.distinct;
                others = others-IsUnsent messenger w.messenger o w.recipients h.0.unsent;
                once = λ k. send-once messenger w.messenger o k h.0.once h.1.0;
                later = later-IsUnsent messenger w.messenger o rs u.0 h.1.1;
              };
        }

        reading :
            Triple (Unmarked r rs) (clock messenger allow rendering) (λ a. Unmarked r rs) MailedOnce
        reading = record { at = λ w h. h }

        marking :
            (reply : SendReply) (at : Time)
            → Triple
                (Unmarked r rs)
                (mark_reply messenger allow rendering r reply at)
                (λ b. Ready rs)
                MailedOnce
        marking (accepted ref) at =
            Triple-bind _ _ (mark-Triple r rs _ (λ s. refl) (λ s. refl)) λ u. Triple-pure true
        marking (refused reason) at =
            Triple-bind _ _ (mark-Triple r rs _ (λ s. refl) (λ s. refl)) λ u. Triple-pure false
