-- ===== src/Orchestrator/Moves.antt =====
-- The allowed transitions of a status compose.
use lab_gateway.Prelude.{◌≡◌, refl, ap, true, text_eq_iff}
use lab_gateway.Prelude.Table.{text_key}
use lab_gateway.Orchestrator.Rows.{
  Status, confirmed, active, completed, cancelled, unlisted, same_status, is_allowed,
}

pub same_status_eq : (a b : Status) → same_status a b ≡ true → a ≡ b
same_status_eq confirmed confirmed h = refl
same_status_eq confirmed active h = cc
same_status_eq confirmed completed h = cc
same_status_eq confirmed cancelled h = cc
same_status_eq confirmed (unlisted y) h = cc
same_status_eq active confirmed h = cc
same_status_eq active active h = refl
same_status_eq active completed h = cc
same_status_eq active cancelled h = cc
same_status_eq active (unlisted y) h = cc
same_status_eq completed confirmed h = cc
same_status_eq completed active h = cc
same_status_eq completed completed h = refl
same_status_eq completed cancelled h = cc
same_status_eq completed (unlisted y) h = cc
same_status_eq cancelled confirmed h = cc
same_status_eq cancelled active h = cc
same_status_eq cancelled completed h = cc
same_status_eq cancelled cancelled h = refl
same_status_eq cancelled (unlisted y) h = cc
same_status_eq (unlisted x) confirmed h = cc
same_status_eq (unlisted x) active h = cc
same_status_eq (unlisted x) completed h = cc
same_status_eq (unlisted x) cancelled h = cc
same_status_eq (unlisted x) (unlisted y) h = ap unlisted ((text_eq_iff x y).0 h)

pub allowed_trans :
    (a b c : Status) → is_allowed a b ≡ true → is_allowed b c ≡ true → is_allowed a c ≡ true
unfolding is_allowed
allowed_trans confirmed confirmed c h k = cc
allowed_trans confirmed active confirmed h k = cc
allowed_trans confirmed active active h k = refl
allowed_trans confirmed active completed h k = refl
allowed_trans confirmed active cancelled h k = refl
allowed_trans confirmed active (unlisted z) h k = cc
allowed_trans confirmed completed confirmed h k = cc
allowed_trans confirmed completed active h k = refl
allowed_trans confirmed completed completed h k = refl
allowed_trans confirmed completed cancelled h k = refl
allowed_trans confirmed completed (unlisted z) h k = cc
allowed_trans confirmed cancelled confirmed h k = cc
allowed_trans confirmed cancelled active h k = refl
allowed_trans confirmed cancelled completed h k = refl
allowed_trans confirmed cancelled cancelled h k = refl
allowed_trans confirmed cancelled (unlisted z) h k = cc
allowed_trans confirmed (unlisted y) c h k = cc
allowed_trans active confirmed c h k = cc
allowed_trans active active c h k = cc
allowed_trans active completed confirmed h k = cc
allowed_trans active completed active h k = cc
allowed_trans active completed completed h k = refl
allowed_trans active completed cancelled h k = refl
allowed_trans active completed (unlisted z) h k = cc
allowed_trans active cancelled confirmed h k = cc
allowed_trans active cancelled active h k = cc
allowed_trans active cancelled completed h k = refl
allowed_trans active cancelled cancelled h k = refl
allowed_trans active cancelled (unlisted z) h k = cc
allowed_trans active (unlisted y) c h k = cc
allowed_trans completed confirmed c h k = cc
allowed_trans completed active c h k = cc
allowed_trans completed completed c h k = cc
allowed_trans completed cancelled c h k = cc
allowed_trans completed (unlisted y) c h k = cc
allowed_trans cancelled confirmed c h k = cc
allowed_trans cancelled active c h k = cc
allowed_trans cancelled completed c h k = cc
allowed_trans cancelled cancelled c h k = cc
allowed_trans cancelled (unlisted y) c h k = cc
allowed_trans (unlisted x) b c h k = cc
