-- ===== src/Api/Telemetry/Tests.antt =====
-- Runs of the guesses about a client.
use legacy_store.Base.{◌≡◌, refl, true, false, codes}
use legacy_store.Api.Telemetry.{infer_os_arch, is_likely_bot_user_agent}

arch_run : infer_os_arch (codes "Mozilla (Macintosh; X86-64)") ≡ codes "x86_64"
unfolding infer_os_arch legacy_store.Base.Strings.contains legacy_store.Base.Strings.to_lower
arch_run = refl

bot_run : is_likely_bot_user_agent (codes " GoogleBot/2.1 ") ≡ true
unfolding is_likely_bot_user_agent legacy_store.Base.Strings.to_lower
    legacy_store.Base.Strings.trim_space legacy_store.Base.Strings.is_space
    legacy_store.Base.Strings.contains
bot_run = refl

browser_run : is_likely_bot_user_agent (codes "Safari/534") ≡ false
unfolding is_likely_bot_user_agent legacy_store.Base.Strings.to_lower
    legacy_store.Base.Strings.trim_space legacy_store.Base.Strings.is_space
    legacy_store.Base.Strings.contains
browser_run = refl
