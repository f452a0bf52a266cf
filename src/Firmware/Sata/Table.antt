-- ===== src/Firmware/Sata/Table.antt =====
-- OpenSSD-1.1.0/sata/sata_table.c: the classes of the ATA commands and the functions that serve them.
use issd.Base.{ℕ, ◌+◌, Option, none, some, List, [], ◌∷◌, ◌==◌, if◌then◌else◌}
use issd.Base.Lists.{get_elem?}

-- The functions of the table.
pub data AtaFunction : Type 0 where
  ata_nop : AtaFunction
  ata_recalibrate : AtaFunction
  ata_read_native_max_address : AtaFunction
  ata_read_verify_sectors : AtaFunction
  ata_seek : AtaFunction
  ata_execute_drive_diagnostics : AtaFunction
  ata_initialize_device_parameters : AtaFunction
  ata_standby_immediate : AtaFunction
  ata_idle_immediate : AtaFunction
  ata_standby : AtaFunction
  ata_idle : AtaFunction
  ata_check_power_mode : AtaFunction
  ata_sleep : AtaFunction
  ata_set_multiple_mode : AtaFunction
  ata_read_buffer : AtaFunction
  ata_flush_cache : AtaFunction
  ata_write_buffer : AtaFunction
  ata_identify_device : AtaFunction
  ata_set_features : AtaFunction
  ata_srst : AtaFunction
  ata_not_supported : AtaFunction

-- 1 is CCL_FTL_D2H, 2 CCL_FTL_H2D, 4 CCL_OTHER and 8 CCL_UNDEFINED; 16 is ATR_LBA_NOR, 32 ATR_LBA_EXT, 64
-- ATR_NO_SECT and 128 ATR_LOCK_FREE.
abbrev pub ata_cmd_class_table : List ℕ
ata_cmd_class_table =
    132 ∷ 8 ∷ 8 ∷ 8 ∷ 8 ∷ 8 ∷ 36 ∷ 8 ∷ 132 ∷ 8 ∷ 8 ∷ 8 ∷ 8 ∷ 8 ∷ 8 ∷ 8 ∷ 4 ∷ 8 ∷ 8 ∷ 8 ∷ 8 ∷ 8 ∷ 8
    ∷ 8 ∷ 8 ∷ 8 ∷ 8 ∷ 8 ∷ 8 ∷ 8 ∷ 8 ∷ 8 ∷ 17 ∷ 8 ∷ 8 ∷ 8 ∷ 33 ∷ 33 ∷ 8 ∷ 132 ∷ 8 ∷ 33 ∷ 8 ∷ 8 ∷ 8
    ∷ 8 ∷ 8 ∷ 36 ∷ 18 ∷ 8 ∷ 8 ∷ 8 ∷ 34 ∷ 34 ∷ 8 ∷ 100 ∷ 8 ∷ 34 ∷ 8 ∷ 8 ∷ 8 ∷ 8 ∷ 8 ∷ 36 ∷ 20 ∷ 8
    ∷ 36 ∷ 8 ∷ 8 ∷ 8 ∷ 8 ∷ 8 ∷ 8 ∷ 8 ∷ 8 ∷ 8 ∷ 8 ∷ 8 ∷ 8 ∷ 8 ∷ 8 ∷ 8 ∷ 8 ∷ 8 ∷ 8 ∷ 8 ∷ 8 ∷ 8 ∷ 8 ∷ 8
    ∷ 8 ∷ 8 ∷ 8 ∷ 8 ∷ 8 ∷ 8 ∷ 1 ∷ 2 ∷ 8 ∷ 8 ∷ 8 ∷ 8 ∷ 8 ∷ 8 ∷ 8 ∷ 8 ∷ 8 ∷ 8 ∷ 8 ∷ 8 ∷ 8 ∷ 8 ∷ 4 ∷ 8
    ∷ 8 ∷ 8 ∷ 8 ∷ 8 ∷ 8 ∷ 8 ∷ 8 ∷ 8 ∷ 8 ∷ 8 ∷ 8 ∷ 8 ∷ 8 ∷ 8 ∷ 8 ∷ 8 ∷ 8 ∷ 8 ∷ 8 ∷ 8 ∷ 8 ∷ 8 ∷ 8 ∷ 8
    ∷ 8 ∷ 8 ∷ 8 ∷ 8 ∷ 8 ∷ 8 ∷ 132 ∷ 4 ∷ 20 ∷ 8 ∷ 132 ∷ 132 ∷ 132 ∷ 132 ∷ 8 ∷ 132 ∷ 8 ∷ 8 ∷ 8 ∷ 8 ∷ 8
    ∷ 8 ∷ 8 ∷ 8 ∷ 8 ∷ 8 ∷ 8 ∷ 8 ∷ 8 ∷ 8 ∷ 8 ∷ 8 ∷ 8 ∷ 8 ∷ 8 ∷ 8 ∷ 8 ∷ 8 ∷ 132 ∷ 4 ∷ 8 ∷ 8 ∷ 8 ∷ 8
    ∷ 8 ∷ 8 ∷ 8 ∷ 8 ∷ 8 ∷ 8 ∷ 8 ∷ 8 ∷ 8 ∷ 8 ∷ 8 ∷ 8 ∷ 8 ∷ 8 ∷ 17 ∷ 18 ∷ 132 ∷ 8 ∷ 17 ∷ 8 ∷ 18 ∷ 8
    ∷ 8 ∷ 8 ∷ 8 ∷ 8 ∷ 8 ∷ 8 ∷ 8 ∷ 8 ∷ 8 ∷ 8 ∷ 8 ∷ 8 ∷ 8 ∷ 8 ∷ 8 ∷ 8 ∷ 8 ∷ 8 ∷ 8 ∷ 8 ∷ 132 ∷ 132
    ∷ 132 ∷ 132 ∷ 132 ∷ 132 ∷ 132 ∷ 4 ∷ 132 ∷ 8 ∷ 4 ∷ 8 ∷ 132 ∷ 8 ∷ 8 ∷ 132 ∷ 8 ∷ 4 ∷ 132 ∷ 132
    ∷ 132 ∷ 4 ∷ 4 ∷ 8 ∷ 132 ∷ 84 ∷ 8 ∷ 8 ∷ 20 ∷ 36 ∷ 8 ∷ 196 ∷ []

abbrev pub ata_command_code_table : List ℕ
ata_command_code_table =
    0 ∷ 6 ∷ 8 ∷ 16 ∷ 37 ∷ 36 ∷ 41 ∷ 32 ∷ 39 ∷ 47 ∷ 53 ∷ 52 ∷ 57 ∷ 48 ∷ 55 ∷ 63 ∷ 64 ∷ 66 ∷ 112 ∷ 144
    ∷ 145 ∷ 146 ∷ 148 ∷ 149 ∷ 150 ∷ 151 ∷ 152 ∷ 153 ∷ 176 ∷ 177 ∷ 200 ∷ 202 ∷ 196 ∷ 197 ∷ 198 ∷ 208
    ∷ 224 ∷ 225 ∷ 226 ∷ 227 ∷ 228 ∷ 229 ∷ 230 ∷ 231 ∷ 232 ∷ 234 ∷ 236 ∷ 239 ∷ 241 ∷ 242 ∷ 243 ∷ 244
    ∷ 245 ∷ 246 ∷ 248 ∷ 249 ∷ 252 ∷ 253 ∷ 255 ∷ 255 ∷ []

-- `none` is INVALID32.
abbrev pub ata_function_table : List (Option AtaFunction)
ata_function_table =
    some ata_nop
    ∷ none
    ∷ none
    ∷ some ata_recalibrate
    ∷ none
    ∷ none
    ∷ none
    ∷ none
    ∷ some ata_read_native_max_address
    ∷ none
    ∷ none
    ∷ none
    ∷ none
    ∷ none
    ∷ none
    ∷ none
    ∷ some ata_read_verify_sectors
    ∷ some ata_read_verify_sectors
    ∷ some ata_seek
    ∷ some ata_execute_drive_diagnostics
    ∷ some ata_initialize_device_parameters
    ∷ none
    ∷ some ata_standby_immediate
    ∷ some ata_idle_immediate
    ∷ some ata_standby
    ∷ some ata_idle
    ∷ some ata_check_power_mode
    ∷ some ata_sleep
    ∷ none
    ∷ none
    ∷ none
    ∷ none
    ∷ none
    ∷ none
    ∷ some ata_set_multiple_mode
    ∷ none
    ∷ some ata_standby_immediate
    ∷ some ata_idle_immediate
    ∷ some ata_standby
    ∷ some ata_idle
    ∷ some ata_read_buffer
    ∷ some ata_check_power_mode
    ∷ some ata_sleep
    ∷ some ata_flush_cache
    ∷ some ata_write_buffer
    ∷ some ata_flush_cache
    ∷ some ata_identify_device
    ∷ some ata_set_features
    ∷ none
    ∷ none
    ∷ none
    ∷ none
    ∷ none
    ∷ none
    ∷ some ata_read_native_max_address
    ∷ none
    ∷ none
    ∷ none
    ∷ some ata_srst
    ∷ []

-- An entry of the class table, whose index is a byte.
abbrev class_or_none : Option ℕ → ℕ
class_or_none none = 0
class_or_none (some c) = c

unfoldable pub cmd_class : ℕ → ℕ
cmd_class cmd_code = class_or_none (get_elem? ata_cmd_class_table cmd_code)

-- `mem_search_equ`: the index of the first equal entry, or the length.
abbrev pub index_of : List ℕ → ℕ → ℕ
index_of [] code = 0
index_of (c ∷ cs) code = if c == code then 0 else 1 + index_of cs code

abbrev function_or_unsupported : Option (Option AtaFunction) → AtaFunction
function_or_unsupported (some (some f)) = f
function_or_unsupported (some none) = ata_not_supported
function_or_unsupported none = ata_not_supported

-- `search_ata_function`
pub search_ata_function : ℕ → AtaFunction
search_ata_function command_code =
    function_or_unsupported
      (get_elem? ata_function_table (index_of ata_command_code_table command_code))
