-- ===== src/Shortcode/Reserved.antt =====
-- internal/shortcode/reserved.go: the keys of the map that buildReserved makes.
use qurator.Common.{Bool, List, [], ◌∷◌, map, Text, bytes, member, to_lower, text_eq}

unfoldable pub reserved : List Text
reserved = map bytes (
    "r" ∷ "i" ∷ "ui" ∷ "assets" ∷ "v1" ∷ "qr" ∷ "codes" ∷ "disable" ∷ "enable" ∷ "analytics"
    ∷ "auth" ∷ "signin" ∷ "signout" ∷ "me" ∷ "tokens" ∷ "admin" ∷ "aliases" ∷ "export" ∷ "healthz"
    ∷ "readyz" ∷ "metrics" ∷ "health" ∷ "ready" ∷ "status" ∷ "ping" ∷ "version" ∷ "login" ∷ "logout"
    ∷ "register" ∷ "signup" ∷ "password" ∷ "reset-password" ∷ "forgot-password" ∷ "change-password"
    ∷ "code" ∷ "user" ∷ "users" ∷ "token" ∷ "alias" ∷ "api" ∷ "console" ∷ "dashboard" ∷ "settings"
    ∷ "static" ∷ "robots.txt" ∷ "favicon.ico" ∷ "sitemap.xml" ∷ "humans.txt" ∷ "security.txt"
    ∷ ".well-known" ∷ "verify" ∷ "secure" ∷ "security" ∷ "billing" ∷ "account" ∷ "support" ∷ "help"
    ∷ "bank" ∷ "paypal" ∷ "confirm" ∷ "update" ∷ "unsubscribe" ∷ [])

-- IsReserved: a lookup in the map. Its toLowerASCII is `to_lower`.
unfoldable pub is_reserved : Text → Bool
is_reserved s = member (to_lower s) reserved
