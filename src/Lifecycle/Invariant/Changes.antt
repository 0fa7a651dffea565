-- ===== src/Lifecycle/Invariant/Changes.antt =====
-- The invariant across any change, and at the empty tables.
use event_lead_ops_agent.Prelude.{sym, subst}
use event_lead_ops_agent.Schema.{empty}
use event_lead_ops_agent.Lifecycle.{
  View, view, Change, stay, propose, approve, reserve, submit, end,
}
use event_lead_ops_agent.Lifecycle.Invariant.{Inv}
use event_lead_ops_agent.Lifecycle.Invariant.Grows.{propose-Inv, approve-Inv}
use event_lead_ops_agent.Lifecycle.Invariant.Moves.{reserve-Inv}
use event_lead_ops_agent.Lifecycle.Invariant.Ends.{submit-Inv, end-Inv}
use event_lead_ops_agent.Prelude.{find}

pub Change-Inv : {v w : View} → Inv v → Change v w → Inv w
Change-Inv inv (stay e) = subst Inv (sym e) inv
Change-Inv inv (propose row new pending e) = subst Inv (sym e) (propose-Inv inv row new)
Change-Inv inv (approve p row now there pending new fresh for_it hash e) =
    subst Inv (sym e) (approve-Inv inv p row now there pending new fresh for_it hash)
Change-Inv inv (reserve p y a now pt ps yt ys new runs free cap auth e) =
    subst Inv (sym e) (reserve-Inv inv p y a now pt ps yt ys new runs free cap auth)
Change-Inv inv (submit a now there runs free e) =
    subst Inv (sym e) (submit-Inv inv a now there runs)
Change-Inv inv (end a b p now there runs over pt of_p same flags e) =
    subst Inv (sym e) (end-Inv inv a b p now there runs over pt of_p same flags)

pub empty-Inv : Inv (view empty)
unfolding find
empty-Inv = record {
  proposal_named = λ k p h. cc;
  approval_ok = λ k a h. absurd (cc h);
  action_ok = λ k a h. absurd (cc h);
  one_approval = λ j k a b hj hk e. absurd (cc hj);
  one_action = λ j k a b hj hk e. absurd (cc hj);
}
