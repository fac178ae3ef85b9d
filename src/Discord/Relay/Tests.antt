-- ===== src/Discord/Relay/Tests.antt =====
-- Messages with quotes and with mentions.
use avorioncontrol.Prelude.{◌+◌, ◌≡◌, refl, [], ◌∷◌}
use avorioncontrol.Discord.Relay.{replace_from, replace_all, block_all, discordsay}
use avorioncontrol.Discord.Relay.Laws.{quotes, quotes-discordsay}

quotes-discordsay_example :
    quotes (discordsay "default" "ann" "\" ; stop \"") ≡ 6 + quotes "default"
quotes-discordsay_example = quotes-discordsay "default" "ann" "\" ; stop \""

replaced : replace_all "@here" "here" "to @here!" ≡ "to here!"
unfolding replace_all replace_from
replaced = refl

-- One pass leaves a mention of everyone behind.
everyone_left : replace_all "@everyone" "everyone" "@@everyone" ≡ "@everyone"
unfolding replace_all replace_from
everyone_left = refl

-- The submatches of the first mention are the mention, twice; the second mention stays.
second_mention_left : block_all ("<@1>" ∷ "<@1>" ∷ []) "<@1> <@2>" ≡ "`(mention blocked)` <@2>"
unfolding block_all replace_all replace_from
second_mention_left = refl
