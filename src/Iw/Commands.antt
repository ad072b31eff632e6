-- ===== src/Iw/Commands.antt =====
-- The table of commands, and the search of `__handle_cmd` for a section and a command.
pub mod Laws
use nl.Base.{
  ℕ, ◌+◌, Bool, true, false, not, ◌&&◌, Bytes, Option, none, some, List, [], ◌∷◌, ◌==◌,
  if◌then◌else◌,
}
use nl.Libc.{str_eq}

-- `enum command_identify_by`
pub data IdBy : Type 0 where
  cib_none cib_phy cib_netdev cib_wdev : IdBy

abbrev pub id_eq : IdBy → IdBy → Bool
id_eq cib_none cib_none = true
id_eq cib_phy cib_phy = true
id_eq cib_netdev cib_netdev = true
id_eq cib_wdev cib_wdev = true
id_eq _ _ = false

-- `enum id_input`
pub data IdInput : Type 0 where
  ii_none ii_netdev ii_phy_name ii_phy_idx ii_wdev : IdInput

-- `struct cmd`. The linker makes one table of all of them; a pointer to one is its place there.
pub record Cmd (Handler : Type 0) : Type 0 where
  pub name : Bytes
  pub args : Option Bytes
  pub help : Option Bytes
  pub cmd : ℕ
  pub nl_msg_flags : ℕ
  pub hidden : Bool
  pub idby : IdBy
  pub handler : Option Handler
  pub selector : Option (List Bytes → Option ℕ)
  pub parent : Option ℕ

abbrev pub is_some : {A : Type 0} → Option A → Bool
is_some none = false
is_some (some a) = true

abbrev pub has_words : List Bytes → Bool
has_words [] = false
has_words (w ∷ ws) = true

-- A command with its place.
abbrev pub Placed : Type 0 → Type 0
Placed Handler = ℕ × Cmd Handler

-- `cmd->idby == command_idby`, with WDEV allowed in place of NETDEV.
abbrev pub id_fits : IdBy → IdBy → Bool
id_fits cib_netdev cib_wdev = true
id_fits wanted given = id_eq wanted given

abbrev pub is_child : ℕ → Option ℕ → Bool
is_child section none = false
is_child section (some p) = p == section

-- The command with the words behind it, or `return 1`.
abbrev pub Chosen : Type 0 → Type 0
Chosen Handler = Option (Cmd Handler × List Bytes)

module _ {Handler : Type 0} where
  -- Whether a round of the first loop takes the entry.
  abbrev pub takes_section : IdBy → Bytes → Option (Placed Handler) → Cmd Handler → Bool
  takes_section idby section found c =
      not (is_some c.parent)
      && not (is_some found && not (id_eq c.idby idby))
      && str_eq c.name section

  -- The first loop, over the commands from place `i` on: the last entry that it takes.
  unfoldable pub section_loop :
      IdBy → Bytes → Option (Placed Handler) → ℕ → List (Cmd Handler) → Option (Placed Handler)
  section_loop idby section found i [] = found
  section_loop idby section found i (c ∷ cs) =
      section_loop idby section (if takes_section idby section found c then some (i, c) else found)
        (i + 1) cs

  -- Whether the second loop stops at an entry, for a command and the words behind it.
  abbrev pub takes_command : IdBy → ℕ → Bytes → List Bytes → Cmd Handler → Bool
  takes_command idby section command rest c =
      is_some c.handler
      && is_child section c.parent
      && id_fits c.idby idby
      && str_eq c.name command
      && not (has_words rest && not (is_some c.args))

  -- The second loop: the first entry that it stops at.
  unfoldable pub command_loop :
      IdBy → ℕ → Bytes → List Bytes → ℕ → List (Cmd Handler) → Option (Placed Handler)
  command_loop idby section command rest i [] = none
  command_loop idby section command rest i (c ∷ cs) =
      let later = command_loop idby section command rest (i + 1) cs in
      if takes_command idby section command rest c then some (i, c) else later

  -- "Use the section itself, if possible."
  abbrev pub section_itself : IdBy → Cmd Handler → List Bytes → Chosen Handler
  section_itself idby c words =
      if has_words words && not (is_some c.args)
      then none
      else if not (id_fits c.idby idby)
      then none
      else if not (is_some c.handler)
      then none
      else some (c, words)

  abbrev pub or_section :
      Option (Placed Handler) → IdBy → Cmd Handler → Bytes → List Bytes → Chosen Handler
  or_section (some (i, c)) idby section command rest = some (c, rest)
  or_section none idby section command rest = section_itself idby section (command ∷ rest)

  -- The words behind a section that was found.
  abbrev pub choose :
      List (Cmd Handler) → IdBy → Option (Placed Handler) → List Bytes → Chosen Handler
  choose table idby none words = none
  choose table idby (some (place, section)) [] = section_itself idby section []
  choose table idby (some (place, section)) (command ∷ rest) =
      or_section (command_loop idby place command rest 0 table) idby section command rest

  unfoldable pub find_command : List (Cmd Handler) → IdBy → Bytes → List Bytes → Chosen Handler
  find_command table idby section words =
      choose table idby (section_loop idby section none 0 table) words
