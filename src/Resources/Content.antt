-- ===== src/Resources/Content.antt =====
-- web/src/features/nodes/NodeResources.tsx: its sizes, and the rows of its interfaces, disks and
-- devices.
use Prim.Native.Nat.{min, suc}
use card_scope.Base.{
  ℕ, ◌*◌, ◌^◌, List, ◌∷◌, Option, none, some, String, Ordering, map, show, is_zero, is_empty, ◌&◌,
  ◌==◌, if◌then◌else◌,
}
use card_scope.Base.Sorting.{sort}
use card_scope.Types.{Metric, Net, Disk, Io, System, Node}
use card_scope.Format.{Level, level, below, Locale, units}
use card_scope.Resources.{
  Fraction, bar_class, disk_used, disk_detail, status, disks, main, others, rate,
}

-- This file's `number` has one digit, for whole bytes too.
abbrev pub number : Locale → Fraction → String
number l f = l.number f.part f.whole 1

-- A size above 0, in the unit of its level. The index of the unit is not raised to 0 here, and what
-- stands before the first unit is undefined.
abbrev pub size_text : Locale → ℕ → ℕ → Level → String
size_text l v whole (level e) =
    number l (record { part = v; whole = 1024 ^ min 4 e * whole }) & " " & units (min 4 e)
size_text l v whole (below k) =
    number l (record { part = 1024 ^ suc k * v; whole = whole }) & " " & "undefined"

-- `bytes`, of a metric that counts so many units for a byte.
unfoldable pub bytes : Locale → ℕ → Metric → String
bytes l whole none = "—"
bytes l whole (some v) = if is_zero v then "0 B" else size_text l v whole (l.exponent v whole)

abbrev pub percent_or : Locale → Option Fraction → String → String
percent_or l none other = other
percent_or l (some f) other = number l f & "%"

-- A bar: its class, its text for a reader, and the share that it is filled to.
pub record Bar : Type 0 where
  pub class_name : String
  pub value_text : String
  pub width : Fraction

abbrev pub width_of : Option Fraction → Fraction
width_of none = record { part = 0; whole = 1 }
width_of (some f) = f

unfoldable pub bar : Locale → Option Fraction → Bar
bar l value = record {
  class_name = "resource-bar " & bar_class value;
  value_text = percent_or l value "不可用";
  width = width_of value;
}

-- An interface: its name, what is said of a broken link, both rates, and the totals.
pub record Interface : Type 0 where
  pub name : String
  pub link : String
  pub up_rate : String
  pub down_rate : String
  pub totals : String

unfoldable pub interface : Locale → Net → Interface
interface l net = record {
  name = net.name;
  link = if net.up then "" else "未连接";
  up_rate = bytes l l.per_byte net.tx_rate & "/s";
  down_rate = bytes l l.per_byte net.rx_rate & "/s";
  totals = "累计上传 " & bytes l 1 (some net.tx) & " · 下载 " & bytes l 1 (some net.rx);
}

-- A disk: its path, its share or why there is none, its bar, and the line below.
pub record DiskRow : Type 0 where
  pub path : String
  pub share : String
  pub bar : Bar
  pub detail : String

unfoldable pub disk_row : Locale → Disk → DiskRow
disk_row l d = record {
  path = d.path;
  share = percent_or l (disk_used d) (status (if d.status == "ok" then "unknown" else d.status));
  bar = bar l (disk_used d);
  detail = disk_detail (λ v. number l (record { part = v; whole = 1 })) (λ v. bytes l 1 (some v)) d;
}

module _ (by_name : String → String → Ordering) (l : Locale) where
  unfoldable pub disk_rows : Node → List DiskRow
  disk_rows n = map (disk_row l) (disks by_name n)

  -- The devices: each a name, and what is read and written.
  unfoldable pub io_rows : System → List (String × String × String)
  io_rows s =
      map
        (λ (v : Io). (
          v.device,
          "读 " & bytes l l.per_byte v.read_rate & "/s",
          "写 " & bytes l l.per_byte v.write_rate & "/s",
        ))
        (sort (λ (a b : Io). by_name a.device b.device) s.io)

  -- The speeds of the node, up and down.
  unfoldable pub speeds : Node → String × String
  speeds n = (
    bytes l l.per_byte (rate by_name (λ i. i.tx_rate) n),
    bytes l l.per_byte (rate by_name (λ i. i.rx_rate) n),
  )

  unfoldable pub interfaces : Node → List Interface × List Interface
  interfaces n = (map (interface l) (main by_name n), map (interface l) (others by_name n))

  abbrev pub no_main : Node → String
  no_main n = if is_empty (main by_name n) then "未选择汇总网卡" else ""

-- The lines on the collection.
unfoldable pub collection : Node → List String
collection n =
    ("GPU " & status n.snapshot.gpu_status & " · 缓存淘汰 " & show n.snapshot.cache_dropped & " 个样本")
    ∷ (if n.snapshot.system.wsl then "系统指标来自 WSL，GPU 与 Windows 共享。" ∷ errors else errors)
  where
    errors : List String
    errors = map (λ e. e.0 & "：" & status e.1) n.snapshot.system.errors
