-- ===== src/FactoryCloud/Priority/Tests.antt =====
-- Runs of the priority score, and the theorems at concrete signals.
use obrasignal.Base.{◌≡◌, refl, ◌↔◌, ◌<◌, String, Option, none, arith}
use obrasignal.Base.Int.{ℤ, pos}
use obrasignal.Base.Json.{Fields, end, field, obj, int}
use obrasignal.Base.Result.{ok}
use obrasignal.FactoryCloud.Priority.{Signals, score, from_app, from_objects, signal}
use obrasignal.FactoryCloud.Priority.Order.{LexLt, digits, score-lt_iff}

abbrev urgent : Signals
urgent = record {
  safety_severity = 1;
  pilot_blocker = 0;
  commercial_leverage = 0;
  shared_leverage = 0;
  evidence_integrity = 0;
  base_priority = pos 0;
}

abbrev busy : Signals
busy = record {
  safety_severity = 0;
  pilot_blocker = 100;
  commercial_leverage = 100;
  shared_leverage = 100;
  evidence_integrity = 100;
  base_priority = pos 900;
}

score_test : score urgent ≡ 10_510_100_501
unfolding score
score_test = refl

score-lt_iff_example : (score busy < score urgent) ↔ LexLt (digits busy) (digits urgent)
score-lt_iff_example = score-lt_iff busy urgent (omega arith) (omega arith)

abbrev no_text : String → Option ℤ
no_text s = none

abbrev entry : Fields
entry = field "portfolio_priority" (obj (field "safety_severity" (int (pos 1)) end)) end

read_entry : from_app no_text entry ≡ ok urgent
unfolding from_app from_objects signal
read_entry = refl
