-- ===== src/Commands/Registrar/Tests.antt =====
-- The theorems on the registry, at a registry with one command.
use avorioncontrol.Prelude.{String, refl, List, [], ◌∷◌, lookup, insert}
use avorioncontrol.Commands.Registrar.{
  Handler, Registrar, empty_registrar, register, add_command, new_cmdlet,
}
use avorioncontrol.Commands.Registrar.Laws.{
  IsRegistry, empty_registrar-IsRegistry, register-IsRegistry,
}

abbrev server_only : Registrar
unfolding empty_registrar add_command new_cmdlet
server_only =
    add_command "server"
      (new_cmdlet "server" "control" "server <subcommand>" [] Handler.proxy_sub_cmnd
        (empty_registrar "1"))
      (empty_registrar "1")

server_only-IsRegistry : IsRegistry server_only
unfolding server_only register lookup
server_only-IsRegistry =
    register-IsRegistry "server" "control" "server <subcommand>" [] Handler.proxy_sub_cmnd []
      (empty_registrar "1") server_only (empty_registrar-IsRegistry "1") refl

abbrev with_stop : Registrar
unfolding server_only empty_registrar add_command new_cmdlet
with_stop = record server_only {
  commands =
      (
        "server",
        record {
          self =
              new_cmdlet "server" "control" "server <subcommand>" [] Handler.proxy_sub_cmnd
                (empty_registrar "1");
          cmdlets = new_cmdlet "stop" "stop it" "stop" [] Handler.stop_server_cmnd server_only ∷ [];
        },
      )
      ∷ [];
}

register-IsRegistry_example : IsRegistry with_stop
unfolding with_stop server_only register add_command lookup insert
register-IsRegistry_example =
    register-IsRegistry "stop" "stop it" "stop" [] Handler.stop_server_cmnd ("server" ∷ [])
      server_only with_stop server_only-IsRegistry refl

abbrev misspelt : List String
misspelt = "serve" ∷ []
