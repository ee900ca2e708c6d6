-- ===== src/Info/Resource/Arithmetic.antt =====
-- Plus and Sub of node_info.go undo each other and Plus is a commutative sum, also where int64 wraps.
use ai_scheduler.Prelude.Int64
use ai_scheduler.Info.Resource.{Resource, plus, sub}
use ai_scheduler.Info.Resource.Amount.{
  IsResource, Same, amount-plus, amount-sub, plus-IsResource, sub-IsResource,
}

-- For resources of int64 words that hold no scalar twice, subtracting what was added gives back
-- the resource, in every dimension, overflow included.
pub sub-plus : (r rr : Resource) → IsResource r → IsResource rr → Same (sub (plus r rr) rr) r
sub-plus r rr v w d =
    rw (amount-sub d _ rr (plus-IsResource r rr v w) w, amount-plus d r rr v w)
      (Int64.sub-add _ _ (v.words d) (w.words d))

-- Adding back what was subtracted gives back the resource, in every dimension.
pub plus-sub : (r rr : Resource) → IsResource r → IsResource rr → Same (plus (sub r rr) rr) r
plus-sub r rr v w d =
    rw (amount-plus d _ rr (sub-IsResource r rr v w) w, amount-sub d r rr v w)
      (Int64.add-sub _ _ (v.words d) (w.words d))

pub plus_comm : (r rr : Resource) → IsResource r → IsResource rr → Same (plus r rr) (plus rr r)
plus_comm r rr v w d = rw (amount-plus d r rr v w, amount-plus d rr r w v) (Int64.add_comm _ _)

pub plus_assoc :
    (r s t : Resource)
    → IsResource r
    → IsResource s
    → IsResource t
    → Same (plus (plus r s) t) (plus r (plus s t))
plus_assoc r s t u v w d =
    rw
      (
        amount-plus d _ t (plus-IsResource r s u v) w,
        amount-plus d r s u v,
        amount-plus d r _ u (plus-IsResource s t v w),
        amount-plus d s t v w,
      )
      (Int64.add_assoc _ _ _)
