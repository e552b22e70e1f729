-- ===== src/Types/Directory.antt =====
-- Directory events and behavioural profiles: core/internal/types/types.go. A `float64` is its bit
-- pattern: the program's arithmetic on it is a parameter where it is used.
use oiaf.Base.{Bool, Option, ℕ, ℤ, String, List}
use oiaf.Base.Table.{Table}
use oiaf.Types.Enums.{Decision}

pub record AdAuthEvent : Type 0 where
  pub event_id : ℤ
  pub timestamp : ℕ
  pub account_name : String
  pub account_domain : String
  pub account_sid : String
  pub logon_type : ℤ
  pub logon_process : String
  pub auth_package : String
  pub source_ip : String
  pub source_port : ℤ
  pub target_server : String
  pub target_spn : String
  pub status : String
  pub sub_status : String
  pub dc_name : String
  pub event_type : String

pub record AdEventDecision : Type 0 where
  pub account_sid : String
  pub account_name : String
  pub decision : Decision
  pub risk_score : ℕ
  pub reasons : List String

pub record TimeWindow : Type 0 where
  pub start_minute_of_day : ℕ
  pub end_minute_of_day : ℕ
  pub days_of_week : List ℕ

pub record ServiceAccountBaseline : Type 0 where
  pub allowed_source_ips : List String
  pub allowed_target_spns : List String
  pub allowed_logon_types : List ℤ
  pub allowed_time_windows : List TimeWindow
  pub allowed_protocols : List String

abbrev pub Float64 : Type 0
Float64 = ℕ

pub record BehaviouralProfile : Type 0 where
  pub account_sid : String
  pub sam_account_name : String
  pub observation_start : ℕ
  pub observation_end : ℕ
  pub total_auth_count : ℕ
  pub time_of_day_histogram : List ℕ
  pub day_of_week_histogram : List ℕ
  pub source_ips : Table ℕ
  pub target_spns : Table ℕ
  pub logon_types : List (ℤ × ℕ)
  pub auth_packages : Table ℕ
  pub last_event_time : ℕ
  pub inter_arrival_sum : Float64
  pub inter_arrival_sum_sq : Float64
  pub inter_arrival_count : ℕ
  pub classification_score : Float64
  pub classified : Bool
  pub classified_at : ℕ
  pub baseline : Option ServiceAccountBaseline

pub record AdInventoryRecord : Type 0 where
  pub sid : String
  pub sam_account_name : String
  pub display_name : String
  pub object_class : String
  pub user_account_control : ℤ
  pub spns : List String
  pub member_of : List String
  pub last_logon_timestamp : ℕ
  pub pwd_last_set : ℕ
  pub enabled : Bool
  pub ou : String
  pub is_gmsa : Bool
  pub is_privileged : Bool

pub record AdInventorySummary : Type 0 where
  pub total_accounts : ℕ
  pub user_accounts : ℕ
  pub computer_accounts : ℕ
  pub service_accounts : ℕ
  pub privileged_accounts : ℕ
  pub stale_accounts : ℕ
  pub disabled_accounts : ℕ
  pub scanned_at : ℕ
