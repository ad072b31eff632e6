-- ===== src/Iw/Commands/Laws.antt =====
-- What the search for a command finds.
use nl.Base.{
  Bool-cases, inl, inr, some, none, [], ◌∷◌, Option, List, ℕ, ◌+◌, true, false, not, ◌&&◌, Bytes,
  ◌≡◌, arith,
}
use nl.Iw.Commands.{
  Cmd, Chosen, Placed, has_words, id_fits, is_some, takes_command, command_loop, section_itself,
  or_section, choose, find_command, section_loop, IdBy,
}

module _ {Handler : Type 0} where
  -- A command that can be run for a device named this way, with the words left for it.
  pub record Fits (idby : IdBy) (c : Cmd Handler) (rest : List Bytes) : Type 0 where
    pub has_handler : is_some c.handler ≡ true
    pub same_id : id_fits c.idby idby ≡ true
    pub takes_words : (has_words rest && not (is_some c.args)) ≡ false

  abbrev pub IsFitting : IdBy → Chosen Handler → Type 0
  IsFitting idby none = Unit
  IsFitting idby (some (c, rest)) = Fits idby c rest

  taken-Fits :
      (idby : IdBy) (section : ℕ) (command : Bytes) (rest : List Bytes) (c : Cmd Handler)
      → takes_command idby section command rest c ≡ true
      → Fits idby c rest
  taken-Fits idby section command rest c h = record {
    has_handler = ground arith;
    same_id = ground arith;
    takes_words = ground arith;
  }

  section_itself-IsFitting :
      (idby : IdBy) (c : Cmd Handler) (words : List Bytes)
      → IsFitting idby (section_itself idby c words)
  section_itself-IsFitting idby c words =
      elim (Bool-cases (has_words words && not (is_some c.args))) [
        | inl extra ↦ rw extra tt
        | inr fine ↦ elim (Bool-cases (id_fits c.idby idby)) [
          | inr other ↦ rw (fine, other) tt
          | inl same ↦ elim (Bool-cases (is_some c.handler)) [
            | inr no_handler ↦ rw (fine, same, no_handler) tt
            | inl runs ↦
                rw (fine, same, runs)
                  record { has_handler = runs; same_id = same; takes_words = fine }
          ]
        ]
      ]

  command_loop-IsFitting :
      (idby : IdBy) (section : ℕ) (command : Bytes) (rest : List Bytes) (i : ℕ)
      (table : List (Cmd Handler)) (itself : Cmd Handler)
      → IsFitting idby
          (or_section (command_loop idby section command rest i table) idby itself command rest)
  unfolding command_loop
  command_loop-IsFitting idby section command rest i [] itself =
      section_itself-IsFitting idby itself (command ∷ rest)
  command_loop-IsFitting idby section command rest i (c ∷ cs) itself =
      elim (Bool-cases (takes_command idby section command rest c)) [
        | inl taken ↦ rw taken (taken-Fits idby section command rest c taken)
        | inr other ↦ rw other (command_loop-IsFitting idby section command rest (i + 1) cs itself)
      ]

  choose-IsFitting :
      (table : List (Cmd Handler)) (idby : IdBy) (o : Option (Placed Handler)) (words : List Bytes)
      → IsFitting idby (choose table idby o words)
  choose-IsFitting table idby none words = tt
  choose-IsFitting table idby (some (place, itself)) [] = section_itself-IsFitting idby itself []
  choose-IsFitting table idby (some (place, itself)) (command ∷ rest) =
      command_loop-IsFitting idby place command rest 0 table itself

  -- Whatever is in the table, a command or a section that is chosen has a handler, is for a device named
  -- in the way that was used, with `wdev` in place of `dev` allowed, and has arguments if words are left.
  pub find_command-IsFitting :
      (table : List (Cmd Handler)) (idby : IdBy) (section : Bytes) (words : List Bytes)
      → IsFitting idby (find_command table idby section words)
  unfolding find_command
  find_command-IsFitting table idby section words =
      choose-IsFitting table idby (section_loop idby section none 0 table) words
