-- ===== src/Column.antt =====
-- The table and column definitions of lmd/table.go and lmd/column.go.
-- A `*Column` is a `Column` with the address `ref`; two pointers are equal if their addresses are.
use Prim.Native.Nat.{bit_and, bit_or}
use lampd.Prelude.{
  ℕ, Bool, true, false, not, Option, none, some, List, [], ◌∷◌, ◌++◌, ◌==◌, if◌then◌else◌,
}
use lampd.Prelude.Bytes.{Bytes, codes, ◌=b◌, to_lower, trim_prefix, trim_suffix}
use lampd.Result.{Result, ok, err, no_such_table}

pub data TableName : Type 0 where
  none_table backends sites columns tables status timeperiods contacts contactgroups : TableName
  commands hosts hostgroups services servicegroups comments downtimes log : TableName
  hostsbygroup servicesbygroup servicesbyhostgroup : TableName

pub data FetchType : Type 0 where
  static dynamic never : FetchType

pub data DataType : Type 0 where
  string_col string_list_col int_col int64_col int64_list_col float_col json_col : DataType
  custom_var_col service_member_list_col interface_list_col string_large_col : DataType

pub data StorageType : Type 0 where
  local_store ref_store virtual_store : StorageType

-- OptionalFlags is a set of bits.
abbrev pub OptionalFlags : Type 0
OptionalFlags = ℕ

unfoldable pub has_flag : OptionalFlags → OptionalFlags → Bool
has_flag f flag = if flag == 0 then true else not (bit_and f flag == 0)

unfoldable pub set_flag : OptionalFlags → OptionalFlags → OptionalFlags
set_flag f flag = bit_or f flag

pub record Column : Type 0 where
  pub ref : ℕ
  pub name : Bytes
  pub data_type : DataType
  pub fetch_type : FetchType
  pub storage_type : StorageType
  pub optional : OptionalFlags
  pub index : ℕ
  pub table : TableName

pub record Table : Type 0 where
  pub name : TableName
  pub columns : List Column
  pub columns_index : Bytes → Option Column
  pub passthrough_only : Bool
  pub primary_key : List Bytes

-- Objects.Tables; `none` is the nil pointer of a missing key.
abbrev pub Schema : Type 0
Schema = TableName → Option Table

unfoldable pub table_name : TableName → Bytes
table_name none_table = []
table_name backends = codes "backends"
table_name sites = codes "sites"
table_name columns = codes "columns"
table_name tables = codes "tables"
table_name status = codes "status"
table_name timeperiods = codes "timeperiods"
table_name contacts = codes "contacts"
table_name contactgroups = codes "contactgroups"
table_name commands = codes "commands"
table_name hosts = codes "hosts"
table_name hostgroups = codes "hostgroups"
table_name services = codes "services"
table_name servicegroups = codes "servicegroups"
table_name comments = codes "comments"
table_name downtimes = codes "downtimes"
table_name log = codes "log"
table_name hostsbygroup = codes "hostsbygroup"
table_name servicesbygroup = codes "servicesbygroup"
table_name servicesbyhostgroup = codes "servicesbyhostgroup"

-- the keys of TableNameMapping
abbrev pub known_tables : List TableName
known_tables =
    backends ∷ sites ∷ columns ∷ tables ∷ status ∷ timeperiods ∷ contacts ∷ contactgroups ∷ commands
    ∷ hosts ∷ hostgroups ∷ services ∷ servicegroups ∷ comments ∷ downtimes ∷ log ∷ hostsbygroup
    ∷ servicesbygroup ∷ servicesbyhostgroup ∷ []

lookup_table : Bytes → List TableName → Result TableName
unfolding table_name
lookup_table name [] = err no_such_table
lookup_table name (t ∷ rest) = if table_name t =b name then ok t else lookup_table name rest

unfoldable pub new_table_name : Bytes → Result TableName
unfolding lookup_table
new_table_name name = lookup_table (to_lower name) known_tables

-- the column name without the prefix that broken clients add
unfoldable pub fixed_column_name : TableName → Bytes → Bytes
unfolding table_name
fixed_column_name hostsbygroup name = trim_prefix (codes "host_") name
fixed_column_name servicesbygroup name = trim_prefix (codes "service_") name
fixed_column_name servicesbyhostgroup name = trim_prefix (codes "service_") name
fixed_column_name status name = trim_prefix (codes "status_") name
fixed_column_name t name = trim_prefix (trim_suffix (codes "s") (table_name t) ++ codes "_") name

-- The empty column is allocated at each call, at the address `fresh`.
unfoldable pub get_empty_column : Table → ℕ → Column
get_empty_column t fresh = record {
  ref = fresh;
  name = codes "empty";
  data_type = string_col;
  fetch_type = never;
  storage_type = virtual_store;
  optional = 0;
  index = 0;
  table = t.name;
}

unfoldable pub or_column : Option Column → Column → Column
or_column none c = c
or_column (some d) c = d

unfoldable pub get_column_with_fallback : Table → ℕ → Bytes → Column
unfolding fixed_column_name get_empty_column or_column
get_column_with_fallback t fresh name =
    or_column (t.columns_index name)
      (or_column (t.columns_index (fixed_column_name t.name name)) (get_empty_column t fresh))

unfoldable pub same_column : Option Column → Option Column → Bool
same_column none none = true
same_column (some a) (some b) = a.ref == b.ref
same_column _ _ = false

pub TableName-discrete : Discrete TableName
TableName-discrete = hlevel
