-- ===== src/ProgramModel/Starter.antt =====
-- packages/program-model/src/starter.ts: the two programs that the editor starts from.
use badgerbots_code_studio.Prelude.{pos, Number, [], ◌∷◌, whole}
use badgerbots_code_studio.ProgramModel.Types.{
  player, game, sheep, projectile_hit_event, player_move_event, sheep_spawn_event,
  sheep_death_event, get_material_under_player, material_literal, explode, bounce, branch, color,
  speed, drop, nil, cons, Program,
}

abbrev pub sheep_city_starter_program : Program
sheep_city_starter_program = record {
  program_id = "sheep-city-starter";
  scripts =
      record {
        id = "script-player";
        script_kind = player;
        display_name = player;
        body =
            record { id = "event-projectile-hit"; node_type = projectile_hit_event; body = nil }
            ∷ record { id = "event-player-move"; node_type = player_move_event; body = nil }
            ∷ [];
      }
      ∷ record { id = "script-game"; script_kind = game; display_name = game; body = [] }
      ∷ record {
        id = "script-sheep";
        script_kind = sheep;
        display_name = sheep;
        body =
            record { id = "event-sheep-spawn"; node_type = sheep_spawn_event; body = nil }
            ∷ record { id = "event-sheep-death"; node_type = sheep_death_event; body = nil }
            ∷ [];
      }
      ∷ [];
}

-- The doubles 1.2 and 1.8.
abbrev bounce_velocity : Number
bounce_velocity = record { numerator = pos 5404319552844595; scale = 52 }

abbrev fast_multiplier : Number
fast_multiplier = record { numerator = pos 8106479329266893; scale = 52 }

abbrev pub sheep_city_completed_example : Program
sheep_city_completed_example = record {
  program_id = "sheep-city-complete";
  scripts =
      record {
        id = "script-player";
        script_kind = player;
        display_name = player;
        body =
            record {
              id = "event-projectile-hit";
              node_type = projectile_hit_event;
              body = cons (explode "explode-safe" (whole 2)) nil;
            }
            ∷ record {
              id = "event-player-move";
              node_type = player_move_event;
              body =
                  cons
                    (branch "if-gold"
                      (record {
                        id = "equals-gold";
                        left = get_material_under_player "material-under-player";
                        right = material_literal "gold-block-value";
                      })
                      (cons (bounce "bounce-gold" bounce_velocity) nil))
                    nil;
            }
            ∷ [];
      }
      ∷ record { id = "script-game"; script_kind = game; display_name = game; body = [] }
      ∷ record {
        id = "script-sheep";
        script_kind = sheep;
        display_name = sheep;
        body =
            record {
              id = "event-sheep-spawn";
              node_type = sheep_spawn_event;
              body = cons (color "sheep-red") (cons (speed "sheep-fast" fast_multiplier) nil);
            }
            ∷ record {
              id = "event-sheep-death";
              node_type = sheep_death_event;
              body = cons (drop "drop-gold" (pos 1)) nil;
            }
            ∷ [];
      }
      ∷ [];
}
