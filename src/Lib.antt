-- ===== src/Lib.antt =====
-- A model of avorioncontrol, a Discord bot that controls an Avorion game server, and the theorems on
-- it. Paths are from the repository's root.
--
-- The parts. A Discord message reaches `ProcessCommand` of the guild's command registry
-- (discord/commands/registrar.go). It reads the message into arguments, finds the command by its
-- name or by an alias of the configuration, checks that it is not disabled, that the author is a
-- member and that a role of theirs has the level that the configuration asks for, and calls the
-- command's function. The output is cut into pages and sent, with a pager if there are several; an
-- error is sent as an output of its own. The configuration (configuration/configuration.go) keeps the
-- settings, aliases, levels and mods, and is loaded from and saved to a YAML file. The game server
-- (avorion/server.go) is a process that `Start`, `Stop` and `Restart` control under a mutex, while
-- goroutines watch it and the lines that it writes: an event (avorion/events) is found for each line,
-- and its handler changes what is known of players, alliances, sectors and requests.
--
-- The files.
--   Prelude: tests on numbers, lists by position, integers, Go's maps as association lists, decimals.
--   Ifaces/Enums: ifaces/enums.go, `State` and `Difficulty`.
--   Configuration/Data: the struct `Conf`, its defaults (`New`), and configuration/yaml.go. The two
--     channels of a `Conf` are positions in a store of channels.
--   Configuration/Pipes: `SetChatChannel` and `SetLogChannel`; `none` is a panic.
--   Configuration/Yaml: the two halves of `SaveConfiguration` and `LoadConfiguration` that translate
--     between settings and the YAML form (`to_yaml`, `apply_yaml`).
--   Configuration/Storage: `LoadConfiguration`, `SaveConfiguration`, `Validate` and `touch` over a
--     world of a configuration and files.
--   Configuration/Aliases, Auth, Mods: the methods of `Conf` on aliases and disabled commands, on
--     authorization levels, and on mods.
--   Configuration/ModFile: `BuildModConfig`.
--   Commands/Output: discord/commands/commandOutput.go. Children: the pages that `Construct` makes
--     (Pages, Bounds, Content) and the moves of the pager (Navigation).
--   Commands/Embed: discord/commands/outputEmbed.go, the embed of a page and the pager (Turns, Laws).
--   Commands/Errors: discord/commands/errors.go.
--   Commands/Args: discord/commands/functions.go and the reading of a message.
--   Commands/Registrar: discord/commands/registrar.go (registration and lookup), registrant.go, and
--     000-init.go (Startup).
--   Commands/Process: `ProcessCommand` of discord/commands/registrar.go up to the call and behind it;
--     Dispatch has the call itself and `proxySubCmnd` of helperCmnds.go.
--   Commands/Functions: the functions of commands on levels (Admin, AdminLaws; adminConfigCmnd.go), on
--     mods (Mods, ModsLaws; modConfigCmnd.go), on players (Players; playerCmnds.go), on aliases
--     (Alias; setAliasCmnd.go) and on the server (Server; serverCmnd.go), and the list of commands with
--     their help (Listing, ListingLaws; listCmnd.go, helpCmnd.go), and the history of
--     coordinates (Coords, CoordsLaws; getCoordHistoryCmnd.go), and the levels of logging
--     (Loglevel, LoglevelLaws; logLevelCmnd.go), and single settings (Settings; setPrefixCmnd.go,
--     setChatChannelCmnd.go, setLogChannelCmnd.go, setStatusChannel.go, setTimezoneCmnd.go), and the
--     commands that ask the game (Game, GameLaws, RconLaws; `RunCommand` of avorion/server.go, rconCmnd.go,
--     statusCmnd.go, checkHangCmnd.go, pingCmnd.go, pongCmnd.go).
--   Avorion/Server: the struct `Server` of avorion/server.go, its process and its status.
--   Avorion/Lifecycle: `Start`, `Stop` and `Restart`, each run on its own. Steps has them and the
--     goroutines of avorion/goroutines.go as a step relation, with its invariants (Laws) and the four
--     activities that it refines (Activity).
--   Avorion/Players: the players and alliances known, joins and leaves, and `NewPlayer`.
--   Avorion/Sectors: `Sector`, `AddJump`, the jump event and `loadSectors` (Loading).
--   Avorion/Integration: requests and pins.
--   Avorion/Database: avorion/database/db.go over an engine of SQL statements: the factions that it
--     tracks (Factions), the links with Discord users (Links), and `Init` with its goroutines as steps
--     (Init, Loading) and as turns that no other interrupts (Taking).
--   Avorion/Supervisor: `superviseAvorionOut` of avorion/goroutines.go, the event handlers, `SendChat` and
--     `SendLog`: what the lines leave of the server (Tracked, Laws), which of them the program survives
--     (Total), what the two pipes hold then (Pipes), and the way of the chat to Discord (Chat).
--   Avorion/Events: avorion/events/events.go and functions.go, and `InitializeEvents`.
--   Avorion/Jumps: the history of jumps of avorion/player.go and alliance.go.
--   Discord/Roles, Cache: discord/datacache.go, the sorting of roles, and the caches of names and colors
--     with the loop that fetches members page by page (Fetch).
--   Discord/Relay: the handler of guild messages and the relays of chat and log lines of discord/bot.go.
--
-- How the code is translated. A method is a function from the state it reads to its results and the
-- state it leaves. A panic, `log.Fatal` and `os.Exit` are values (`none`, `exited`, `panicked`). An
-- `error` is an `Option` or a data type. All loops but one run over lists, so every function is
-- structurally recursive; the loop that fetches the members of a guild takes fuel, and more of it
-- than there are members is enough. What other goroutines and the process do while `Start` or `Stop`
-- waits is an argument of the functions, and a step of its own in the step relation. The goroutine
-- that waits for the process closes whatever channel the server has by then, which may be that of a
-- later process; `Prompt` names the runs in which it does not. A pointer to a player, an alliance or
-- a sector is the place in its list. Go's `int` is an unbounded integer: levels, ports and page
-- numbers are only compared, and pages are counted by the lines of one output. A page has room for
-- 1000 code points, a registry for five pagers and a history for 1000 jumps, which are the code's
-- numbers. A map is visited in the order of an association list, and what is said of aliases holds
-- in any order; the range over the logged events is the argument `visit`. A time is a number of
-- nanoseconds.
--
-- Parameters. yaml.v2, the compilation of regular expressions, the file system's permissions and the
-- probe of ports are the record `Env`; the theorem on saving and loading assumes that yaml.v2 reads
-- back what it wrote and that a range visits every entry of a map once (`IsVisit`). `sort.Sort` is
-- an argument of `loadSectors`, which permutes a list into the order of `Less` (`IsSort`). The
-- lookup of a guild's members is an argument of `ProcessCommand`, and so is what the functions of
-- the commands do, `proxySubCmnd` excepted.
--
-- SQLite and `database/sql` are the record `Engine`; what the theorems rely on of its statements are
-- the records `IsFactionTable` and `IsLinkTable`, which the engine of Avorion/Database/InMemory
-- fills.
--
-- What `exec.Cmd`, the tracking database and the configuration answer to `Start` is the record
-- `Attempt`, what the game answers to an RCON command is `Answer`, and whether a regular expression
-- of an event matches a line is an argument.
--
-- Not modelled: the functions `getJumpsCmnd`, `reloadConfigCmnd` and `sendBroadcastCmnd`, what the
-- handler of guild messages sends after an error, the status embed, `UpdatePlayerDatabase` and
-- `NewAlliance`, the scripts run after a start and a stop, the logger and the main program. They are
-- formatting, I/O, HTTP or calls of discordgo, or only join what is modelled here. Log lines are
-- left out everywhere.
pub mod Prelude
pub mod Ifaces
pub mod Configuration
pub mod Commands
pub mod Avorion
pub mod Discord
