-- ===== src/I18n/Tables.antt =====
-- crates/sentinel-shared/src/ui_i18n.rs: the tables, one per language, with the keys in the source's order.
use sentinel_cosmic.Common.{[], ◌∷◌, List}
use sentinel_cosmic.Text.{codes, Text}

abbrev pub en : List (Text × Text)
en =
    (codes "allow", codes "Allow")
    ∷ (codes "deny", codes "Deny")
    ∷ (codes "show-details", codes "Show details")
    ∷ (codes "hide-details", codes "Hide details")
    ∷ (codes "auto-deny-in", codes "Auto-deny in %1 s")
    ∷ (codes "title-default", codes "Authentication Required")
    ∷ (codes "detail-action", codes "Action")
    ∷ (codes "detail-command", codes "Command")
    ∷ (codes "detail-pid", codes "PID")
    ∷ (codes "detail-requested-by", codes "Requested by")
    ∷ (codes "detail-cwd", codes "Working directory")
    ∷ []

abbrev pub de : List (Text × Text)
de =
    (codes "allow", codes "Erlauben")
    ∷ (codes "deny", codes "Verweigern")
    ∷ (codes "show-details", codes "Details anzeigen")
    ∷ (codes "hide-details", codes "Details ausblenden")
    ∷ (codes "auto-deny-in", codes "Automatische Ablehnung in %1 s")
    ∷ (codes "title-default", codes "Authentifizierung erforderlich")
    ∷ (codes "detail-action", codes "Aktion")
    ∷ (codes "detail-command", codes "Befehl")
    ∷ (codes "detail-pid", codes "PID")
    ∷ (codes "detail-requested-by", codes "Angefordert von")
    ∷ (codes "detail-cwd", codes "Arbeitsverzeichnis")
    ∷ []

abbrev pub es : List (Text × Text)
es =
    (codes "allow", codes "Permitir")
    ∷ (codes "deny", codes "Denegar")
    ∷ (codes "show-details", codes "Mostrar detalles")
    ∷ (codes "hide-details", codes "Ocultar detalles")
    ∷ (codes "auto-deny-in", codes "Denegación automática en %1 s")
    ∷ (codes "title-default", codes "Autenticación requerida")
    ∷ (codes "detail-action", codes "Acción")
    ∷ (codes "detail-command", codes "Comando")
    ∷ (codes "detail-pid", codes "PID")
    ∷ (codes "detail-requested-by", codes "Solicitado por")
    ∷ (codes "detail-cwd", codes "Directorio de trabajo")
    ∷ []

abbrev pub fr : List (Text × Text)
fr =
    (codes "allow", codes "Autoriser")
    ∷ (codes "deny", codes "Refuser")
    ∷ (codes "show-details", codes "Afficher les détails")
    ∷ (codes "hide-details", codes "Masquer les détails")
    ∷ (codes "auto-deny-in", codes "Refus automatique dans %1 s")
    ∷ (codes "title-default", codes "Authentification requise")
    ∷ (codes "detail-action", codes "Action")
    ∷ (codes "detail-command", codes "Commande")
    ∷ (codes "detail-pid", codes "PID")
    ∷ (codes "detail-requested-by", codes "Demandé par")
    ∷ (codes "detail-cwd", codes "Répertoire de travail")
    ∷ []

abbrev pub it : List (Text × Text)
it =
    (codes "allow", codes "Consenti")
    ∷ (codes "deny", codes "Nega")
    ∷ (codes "show-details", codes "Mostra dettagli")
    ∷ (codes "hide-details", codes "Nascondi dettagli")
    ∷ (codes "auto-deny-in", codes "Negazione automatica fra %1 s")
    ∷ (codes "title-default", codes "Autenticazione richiesta")
    ∷ (codes "detail-action", codes "Azione")
    ∷ (codes "detail-command", codes "Comando")
    ∷ (codes "detail-pid", codes "PID")
    ∷ (codes "detail-requested-by", codes "Richiesto da")
    ∷ (codes "detail-cwd", codes "Directory di lavoro")
    ∷ []

abbrev pub ja : List (Text × Text)
ja =
    (codes "allow", codes "許可")
    ∷ (codes "deny", codes "拒否")
    ∷ (codes "show-details", codes "詳細を表示")
    ∷ (codes "hide-details", codes "詳細を非表示")
    ∷ (codes "auto-deny-in", codes "%1 秒後に自動的に拒否されます")
    ∷ (codes "title-default", codes "認証が必要です")
    ∷ (codes "detail-action", codes "アクション")
    ∷ (codes "detail-command", codes "コマンド")
    ∷ (codes "detail-pid", codes "PID")
    ∷ (codes "detail-requested-by", codes "要求元")
    ∷ (codes "detail-cwd", codes "作業ディレクトリ")
    ∷ []

abbrev pub nl : List (Text × Text)
nl =
    (codes "allow", codes "Toestaan")
    ∷ (codes "deny", codes "Weigeren")
    ∷ (codes "show-details", codes "Details tonen")
    ∷ (codes "hide-details", codes "Details verbergen")
    ∷ (codes "auto-deny-in", codes "Automatisch weigeren over %1 s")
    ∷ (codes "title-default", codes "Verificatie vereist")
    ∷ (codes "detail-action", codes "Actie")
    ∷ (codes "detail-command", codes "Opdracht")
    ∷ (codes "detail-pid", codes "PID")
    ∷ (codes "detail-requested-by", codes "Aangevraagd door")
    ∷ (codes "detail-cwd", codes "Werkmap")
    ∷ []

abbrev pub pl : List (Text × Text)
pl =
    (codes "allow", codes "Zezwól")
    ∷ (codes "deny", codes "Odmów")
    ∷ (codes "show-details", codes "Pokaż szczegóły")
    ∷ (codes "hide-details", codes "Ukryj szczegóły")
    ∷ (codes "auto-deny-in", codes "Automatyczna odmowa za %1 s")
    ∷ (codes "title-default", codes "Wymagane uwierzytelnienie")
    ∷ (codes "detail-action", codes "Akcja")
    ∷ (codes "detail-command", codes "Polecenie")
    ∷ (codes "detail-pid", codes "PID")
    ∷ (codes "detail-requested-by", codes "Żąda")
    ∷ (codes "detail-cwd", codes "Katalog roboczy")
    ∷ []

abbrev pub pt : List (Text × Text)
pt =
    (codes "allow", codes "Permitir")
    ∷ (codes "deny", codes "Negar")
    ∷ (codes "show-details", codes "Mostrar detalhes")
    ∷ (codes "hide-details", codes "Ocultar detalhes")
    ∷ (codes "auto-deny-in", codes "Negação automática em %1 s")
    ∷ (codes "title-default", codes "Autenticação necessária")
    ∷ (codes "detail-action", codes "Ação")
    ∷ (codes "detail-command", codes "Comando")
    ∷ (codes "detail-pid", codes "PID")
    ∷ (codes "detail-requested-by", codes "Solicitado por")
    ∷ (codes "detail-cwd", codes "Diretório de trabalho")
    ∷ []

abbrev pub ru : List (Text × Text)
ru =
    (codes "allow", codes "Разрешить")
    ∷ (codes "deny", codes "Запретить")
    ∷ (codes "show-details", codes "Показать подробности")
    ∷ (codes "hide-details", codes "Скрыть подробности")
    ∷ (codes "auto-deny-in", codes "Автоматический отказ через %1 с")
    ∷ (codes "title-default", codes "Требуется аутентификация")
    ∷ (codes "detail-action", codes "Действие")
    ∷ (codes "detail-command", codes "Команда")
    ∷ (codes "detail-pid", codes "PID")
    ∷ (codes "detail-requested-by", codes "Запросил")
    ∷ (codes "detail-cwd", codes "Рабочий каталог")
    ∷ []

abbrev pub tr : List (Text × Text)
tr =
    (codes "allow", codes "İzin Ver")
    ∷ (codes "deny", codes "Reddet")
    ∷ (codes "show-details", codes "Ayrıntıları göster")
    ∷ (codes "hide-details", codes "Ayrıntıları gizle")
    ∷ (codes "auto-deny-in", codes "%1 sn sonra otomatik reddedilecek")
    ∷ (codes "title-default", codes "Kimlik Doğrulama Gerekli")
    ∷ (codes "detail-action", codes "İşlem")
    ∷ (codes "detail-command", codes "Komut")
    ∷ (codes "detail-pid", codes "PID")
    ∷ (codes "detail-requested-by", codes "İsteyen kullanıcı")
    ∷ (codes "detail-cwd", codes "Çalışma dizini")
    ∷ []

abbrev pub zh : List (Text × Text)
zh =
    (codes "allow", codes "允许")
    ∷ (codes "deny", codes "拒绝")
    ∷ (codes "show-details", codes "显示详情")
    ∷ (codes "hide-details", codes "隐藏详情")
    ∷ (codes "auto-deny-in", codes "%1 秒后自动拒绝")
    ∷ (codes "title-default", codes "需要身份验证")
    ∷ (codes "detail-action", codes "操作")
    ∷ (codes "detail-command", codes "命令")
    ∷ (codes "detail-pid", codes "PID")
    ∷ (codes "detail-requested-by", codes "请求者")
    ∷ (codes "detail-cwd", codes "工作目录")
    ∷ []

abbrev pub remember_labels : List (Text × Text)
remember_labels =
    (codes "de", codes "Für %1 merken")
    ∷ (codes "es", codes "Recordar durante %1")
    ∷ (codes "fr", codes "Mémoriser pendant %1")
    ∷ (codes "it", codes "Ricorda per %1")
    ∷ (codes "ja", codes "%1 記憶する")
    ∷ (codes "nl", codes "Onthouden voor %1")
    ∷ (codes "pl", codes "Zapamiętaj na %1")
    ∷ (codes "pt", codes "Lembrar por %1")
    ∷ (codes "ru", codes "Запомнить на %1")
    ∷ (codes "tr", codes "%1 boyunca hatırla")
    ∷ (codes "zh", codes "在 %1 内记住")
    ∷ []
