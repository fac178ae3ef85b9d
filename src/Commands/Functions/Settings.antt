-- ===== src/Commands/Functions/Settings.antt =====
-- The commands that set one setting: setPrefixCmnd.go, setChatChannelCmnd.go, setLogChannelCmnd.go,
-- setStatusChannel.go and setTimezoneCmnd.go under discord/commands. The channels of the guild come from
-- Discord, and what `time.LoadLocation` makes of a zone is `zone_error`.
use Prim.Native.Char.{Char, code}
use avorioncontrol.Prelude.{
  ◌≡◌, refl, ℕ, zero, suc, String, ◌<>◌, ◌==◌, Bool, true, false, ◌&&◌, ◌||◌, Option, none, some,
  List, [], ◌∷◌, pos, leb, eqb, count, any, bind, get_elem?, if◌then◌else◌, ◌⊎◌, inl, inr,
}
use avorioncontrol.Configuration.Data.{Conf}
use avorioncontrol.Configuration.Pipes.{set_chat_channel, set_log_channel}
use avorioncontrol.Configuration.Storage.{Env, World}
use avorioncontrol.Configuration.Auth.{with_settings, save}
use avorioncontrol.Commands.Output.{add_line}
use avorioncontrol.Commands.Errors.{CommandRef}
use avorioncontrol.Commands.Output.{construct}
use avorioncontrol.Commands.Functions.{
  Reply, succeeds, fails, shows, output_of, invalid_argument, command_error, wrong_number_plain,
  with_args,
}

-- `[a-zA-Z0-9]`
unfoldable pub is_alphanumeric : Char → Bool
is_alphanumeric c =
    let n = code c in (leb 97 n && leb n 122) || ((leb 65 n && leb n 90) || (leb 48 n && leb n 57))

-- `[?!;:>%$#~=+-]`
unfoldable pub is_mark : Char → Bool
is_mark c =
    any (λ n. eqb (code c) n) (63 ∷ 33 ∷ 59 ∷ 58 ∷ 62 ∷ 37 ∷ 36 ∷ 35 ∷ 126 ∷ 61 ∷ 43 ∷ 45 ∷ [])

-- The text behind at most `n` letters and digits.
unfoldable pub behind_letters : (n : ℕ) → String → String
behind_letters zero s = s
behind_letters (suc n) String.[] = ""
behind_letters (suc n) (String.◌∷◌ c s) =
    let rest = behind_letters n s in if is_alphanumeric c then rest else String.◌∷◌ c s

unfoldable pub all_marks : String → Bool
all_marks String.[] = true
all_marks (String.◌∷◌ c s) = is_mark c && all_marks s

-- `^([a-zA-Z0-9]{0,2}[?!;:>%$#~=+-]{1,2}|mention)$`: no letter is a mark, so there is one way to match.
unfoldable pub is_prefix : String → Bool
is_prefix s =
    let marks = behind_letters 2 s in
    (all_marks marks && (leb 1 (count marks) && leb (count marks) 2)) || s == "mention"

-- The prefix that is set, and the line that is shown, for the bot's id and mention.
unfoldable pub new_prefix : (id mention : String) → (given : String) → String × String
new_prefix id mention given =
    if given == "mention"
    then ("<@!" <> (id <> ">"), "Updated prefix to " <> mention)
    else (given, "Updated prefix to `" <> (given <> "`"))

-- `setprefixCmd`
unfoldable pub setprefix_cmd :
    Env → (id mention : String) → CommandRef → List String → World → Option Reply
setprefix_cmd env id mention cmd a w = with_args cmd (wrong_number_plain cmd) a (pos 1) (pos 1) w (
    bind (get_elem? a 1) (λ given. some (
      if is_prefix given
      then (let (prefix, line) = new_prefix id mention given in
          shows (construct (add_line line (record (output_of cmd "Set Prefix") { quoted = true })))
            (save env (with_settings (λ c. record c { prefix = prefix }) w)))
      else fails (invalid_argument cmd ("Invalid prefix supplied: `" <> (given <> "`"))) w)))

-- What is read of a channel of a guild.
pub record GuildChannel : Type 0 where
  pub id : String
  pub is_text : Bool
  pub mention : String

-- The first text channel of an id.
unfoldable pub text_channel : String → List GuildChannel → Option GuildChannel
text_channel given [] = none
text_channel given (ch ∷ channels) =
    let later = text_channel given channels in
    if (ch.id == given) && ch.is_text then some ch else later

-- The functions that set a channel, by the title, the line in front of the mention, and the setter.
unfoldable pub set_channel :
    (title line : String)
    → (set : String → Conf → Option Conf) → Env
    → CommandRef
    → (channels : String ⊎ List GuildChannel) → List String
    → World
    → Option Reply
set_channel title line set env cmd channels a w =
    with_args cmd (wrong_number_plain cmd) a (pos 1) (pos 1) w (
      bind (get_elem? a 1) (λ given. elim channels [
        | inl err ↦ some (fails (command_error cmd "Server error getting channels") w)
        | inr known ↦ elim (text_channel given known) [
          | none ↦ some (fails (invalid_argument cmd ("Invalid channel ID: `" <> (given <> "`"))) w)
          | some ch ↦ bind (set given w.conf) (λ conf. some (
              shows (construct (add_line (line <> ch.mention) (output_of cmd title)))
                (save env (record w { conf = conf }))))
        ]
      ]))

-- `SetStatusChannel`
unfoldable pub set_status_channel : String → Conf → Option Conf
set_status_channel id c = some (record c { settings = record c.settings { statuschannel = id } })

-- `setChatChannelCmnd`, `setLogChannelCmnd` and `setStatusChannelCmnd`
unfoldable pub set_chat_channel_cmnd :
    Env → CommandRef → (channels : String ⊎ List GuildChannel) → List String → World → Option Reply
set_chat_channel_cmnd =
    set_channel "Update Chat Channel" "Set the game chat to channel " set_chat_channel

unfoldable pub set_log_channel_cmnd :
    Env → CommandRef → (channels : String ⊎ List GuildChannel) → List String → World → Option Reply
set_log_channel_cmnd =
    set_channel "Update Log Channel" "Set the game event log to channel " set_log_channel

unfoldable pub set_status_channel_cmnd :
    Env → CommandRef → (channels : String ⊎ List GuildChannel) → List String → World → Option Reply
set_status_channel_cmnd =
    set_channel "Update Status Channel" "Set the game status to channel " set_status_channel

-- `setTimezoneCmnd`
unfoldable pub set_timezone_cmnd :
    Env → (zone_error : String → Option String) → CommandRef → List String → World → Option Reply
set_timezone_cmnd env zone_error cmd a w = bind (get_elem? a 0) (λ first.
    with_args cmd (first <> " was passed the wrong number of arguments") a (pos 1) (pos 1) w (
      bind (get_elem? a 1) (λ given. some (elim (zone_error given) [
        | some err ↦
            fails
              (command_error cmd ("Incorrect timezone: `" <> (given <> ("` (" <> (err <> ")"))))) w
        | none ↦ succeeds (save env (with_settings (λ c. record c { timezone = given }) w))
      ]))))

-- Prefixes that are accepted, and some that are not.
prefixes_tried :
    (is_prefix "!" ≡ true)
    × (is_prefix "aa!!" ≡ true)
    × (is_prefix "mention" ≡ true)
    × (is_prefix "aaa!" ≡ false)
    × (is_prefix "aa" ≡ false)
    × (is_prefix "! " ≡ false)
unfolding is_prefix behind_letters all_marks is_mark is_alphanumeric
prefixes_tried = (refl, refl, refl, refl, refl, refl)
