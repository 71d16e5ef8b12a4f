-- ===== src/Types.antt =====
-- web/src/types.ts: what the hub's JSON answers hold.
--
-- A `Metric` is `number | null`. Percentages, degrees and bytes are whole numbers, as both
-- collectors report them; watts, rates and hours are counted in a unit fine enough to make them
-- whole, and Format prints them by that unit. A list or record that may be null is empty
-- here: every reader takes it through `|| []`, `|| {}` or `?.`.
use card_scope.Base.{ℕ, Bool, List, Option, String}

abbrev pub Metric : Type 0
Metric = Option ℕ

pub record Process : Type 0 where
  pub pid : ℕ
  pub uid : String
  pub user : String
  pub name : String
  pub created : ℕ
  pub memory : Metric
  pub first_seen : ℕ
  pub last_seen : ℕ

pub record Gpu : Type 0 where
  pub uuid : String
  pub name : String
  pub index : ℕ
  pub pci : String
  pub util : Metric
  pub memory_used : Metric
  pub memory_total : Metric
  pub temperature : Metric
  pub power : Metric
  pub ecc : Metric
  pub status : String
  pub fields : List (String × String)
  pub processes : List Process
  pub process_status : String
  pub source : String
  pub seen_at : ℕ

pub record Net : Type 0 where
  pub name : String
  pub rx : ℕ
  pub tx : ℕ
  pub rx_rate : Metric
  pub tx_rate : Metric
  pub up : Bool
  pub primary : Bool

pub record Disk : Type 0 where
  pub path : String
  pub device : String
  pub total : ℕ
  pub free : ℕ
  pub status : String

pub record Io : Type 0 where
  pub device : String
  pub read_rate : Metric
  pub write_rate : Metric

pub record System : Type 0 where
  pub cpu : Metric
  pub cores : ℕ
  pub load : Metric
  pub memory_total : ℕ
  pub memory_available : ℕ
  pub swap_total : ℕ
  pub swap_used : ℕ
  pub wsl : Bool
  pub networks : List Net
  pub disks : List Disk
  pub io : List Io
  pub errors : List (String × String)

pub record Snapshot : Type 0 where
  pub at : ℕ
  pub hostname : String
  pub cache_dropped : ℕ
  pub gpu_status : String
  pub gpus : List Gpu
  pub system : System

pub record Node : Type 0 where
  pub id : String
  pub name : String
  pub expected : ℕ
  pub networks : List String
  pub tags : List String
  pub snapshot : Snapshot
  pub sample_at : ℕ
  pub received_at : ℕ
  pub online : Bool
  pub enrolled : Bool
  pub created : ℕ

pub data Role : Type 0 where
  admin viewer : Role

pub record User : Type 0 where
  pub username : String
  pub role : Role
  pub csrf : String

pub record Stat : Type 0 where
  pub node : String
  pub uuid : String
  pub model : String
  pub user_id : String
  pub user : String
  pub occupied_hours : ℕ
  pub weighted_hours : ℕ
  pub occupancy_seconds : ℕ
  pub util_seconds : ℕ
  pub expected_seconds : ℕ
  pub coverage : ℕ
  pub util_coverage : ℕ

pub record LoginCopy : Type 0 where
  pub eyebrow : String
  pub title : String
  pub description : String
  pub caption : String
