-- ===== src/Quotations/Life.antt =====
-- The life of a quotation as a machine of its own, which knows neither rows nor clocks.
use biz360_sme_erp_e_tims.Base.{Option, none, some, ◌≡◌}
use biz360_sme_erp_e_tims.Store.{QuotationStatus}

pub data Action : Type 0 where
  send accept cancel convert expire : Action

-- The status after an action, where the action is allowed.
abbrev pub act : Action → QuotationStatus → Option QuotationStatus
act send QuotationStatus.draft = some QuotationStatus.sent
act accept QuotationStatus.sent = some QuotationStatus.accepted
act cancel QuotationStatus.draft = some QuotationStatus.cancelled
act cancel QuotationStatus.sent = some QuotationStatus.cancelled
act convert QuotationStatus.accepted = some QuotationStatus.converted
act expire QuotationStatus.draft = some QuotationStatus.expired
act expire QuotationStatus.sent = some QuotationStatus.expired
act expire QuotationStatus.accepted = some QuotationStatus.expired
act _ _ = none

-- The statuses that a run of actions reaches.
pub data Reaches (s : QuotationStatus) : QuotationStatus → Type 0 where
  start : Reaches s s
  then_act : {t u : QuotationStatus} (a : Action) → Reaches s t → act a t ≡ some u → Reaches s u
